-- ===== src/Boot/Standalone.antt =====
-- A standalone boot of a volume that ran as a member: the oplog replay comes first.
use mongo_ha.Base.{
  Bool-cases, ◌≡◌, refl, sym, ap, ◌∙◌, ◌⊎◌, inl, inr, true, false, not, ◌||◌, Option, none, some,
  List, arith,
}
use mongo_ha.Text.{Text}
use mongo_ha.WrapperConfig.{Config, rs_enabled}
use mongo_ha.Passthrough.{merge_own_flags}
use mongo_ha.AuthPin.{replay_needed}
use mongo_ha.Recovery.{
  Replay, replayed, no_oplog, ReplayResult, Recovery, replay_oplog_as_standalone,
}
use mongo_ha.Recovery.Verdict.{IsCheckpointed, HasNoOplog}
use mongo_ha.Recovery.Outcome.{replay-IsCheckpointed_iff, replay-HasNoOplog_iff}
use mongo_ha.Boot.Keyed.{rs_enabled-with_passthrough}
use mongo_ha.Boot.{
  with_passthrough, own_flags, Volume, Machine, supervising, exit_code, failed, Booted,
  after_replay, standalone_boot, member_boot, boot_credentials, boot,
}

-- What the recovery boot shows before the data may be opened without `--replSet`.
abbrev pub IsSafe : Recovery → Type 0
IsSafe r = IsCheckpointed r ⊎ HasNoOplog r

-- The record stays, and no mongod is started on the data: the process exits with 78 after a failed
-- recovery boot, or `main` fails before it.
abbrev pub Stops : Volume → Booted → Type 0
Stops v b = (b.marker ≡ v.marker) × ((b.end ≡ exit_code 78) ⊎ (b.end ≡ failed))

replayed-IsSafe :
    (r : Recovery) (outcome : Replay) → replay_oplog_as_standalone r ≡ some (inl outcome) → IsSafe r
replayed-IsSafe r replayed h = inl ((replay-IsCheckpointed_iff r).0 h)
replayed-IsSafe r no_oplog h = inr ((replay-HasNoOplog_iff r).0 h)

after_replay-cases :
    (m : Machine) (v : Volume) (flags : List Text) (o : Option ReplayResult) (b : Booted)
    → replay_oplog_as_standalone m.recovery ≡ o
    → after_replay m v flags o ≡ some b
    → IsSafe m.recovery ⊎ Stops v b
after_replay-cases m v flags none b e h = cc
after_replay-cases m v flags (some (inl outcome)) b e h = inl (replayed-IsSafe m.recovery outcome e)
after_replay-cases m v flags (some (inr x)) b e h = inr (ground (arith, h), inl (ground (arith, h)))

owes-cases :
    (m : Machine) (v : Volume) (flags : List Text) (b : Booted)
    → replay_needed v.has_data v.marker v.pin ≡ true
    → standalone_boot m v flags ≡ some b
    → IsSafe m.recovery ⊎ Stops v b
unfolding standalone_boot replay_needed
owes-cases m v flags b n h =
    let holds : v.has_data ≡ true = ground (arith, n) in
    after_replay-cases m v flags (replay_oplog_as_standalone m.recovery) b refl
      (ground (arith, holds, n, h))

module _ (derive : Text → Text) where
  -- A standalone boot of a volume that ran as a member either has shown in its recovery boot that
  -- the replay is checkpointed or that there is no oplog, or starts no mongod and keeps the record:
  -- it exits with 78, or fails before.
  pub standalone_boot-IsSafe :
      (config : Config) (v : Volume) (m : Machine) (args : List Text) (b : Booted)
      → rs_enabled config ≡ false
      → replay_needed v.has_data v.marker v.pin ≡ true
      → boot derive config v m args ≡ some b
      → IsSafe m.recovery ⊎ Stops v b
  unfolding boot
  standalone_boot-IsSafe config v m args b r n h =
      let c = with_passthrough config args in
      let off : rs_enabled c ≡ false = rs_enabled-with_passthrough config args ∙ r in
      elim (Bool-cases m.lock_acquired) [
        | inl e ↦
            owes-cases m v (merge_own_flags (own_flags c) args) b n (ground (arith, e, off, h))
        | inr e ↦ inr (ground (arith, e, h), inr (ground (arith, e, h)))
      ]

  -- A boot as a member that starts mongod and could write the record leaves it.
  member_boot-marker :
      (m : Machine) (v : Volume) (c : Config) (flags started : List Text) (key : Option Text)
      → (member_boot m v c flags key).end ≡ supervising started
      → m.marker_writable ≡ true
      → (member_boot m v c flags key).marker ≡ true
  unfolding member_boot
  member_boot-marker m v c flags started none h w = ground (arith, h)
  member_boot-marker m v c flags started (some k) h w = ground (arith, h, w)

  -- Standalone boots of a volume, one after the other, none of which showed that the data is safe.
  pub data Attempts : Volume → Volume → Type 0 where
    no_attempt : (v : Volume) → Attempts v v
    attempt :
        (v w : Volume) (config : Config) (m : Machine) (args : List Text) (b : Booted)
        → Attempts v w
        → rs_enabled config ≡ false
        → boot derive config w m args ≡ some b
        → (IsSafe m.recovery → ⊥)
        → Attempts v (record w { marker = b.marker })

  Attempts-marker :
      (v w : Volume)
      → Attempts v w
      → v.has_data ≡ true
      → v.marker ≡ true
      → (w.has_data ≡ true) × (w.marker ≡ true)
  unfolding replay_needed
  Attempts-marker v w (no_attempt u) d k = (d, k)
  Attempts-marker v w (attempt x u config m args b before r h unsafe) d k =
      let (du, ku) = Attempts-marker x u before d k in
      elim (standalone_boot-IsSafe config u m args b r (rw (du, ku) refl) h) [
        | inl s ↦ absurd (unsafe s)
        | inr (e, f) ↦ (du, e ∙ ku)
      ]

  -- After a boot as a member that started mongod and could write its record, a standalone boot of
  -- that volume with data in it, however many unsafe standalone boots came between, starts no mongod
  -- unless its recovery boot shows that the replay is checkpointed or that there is no oplog.
  pub revert-IsSafe :
      (member config : Config) (v before : Volume) (m later : Machine) (own args : List Text)
      (b after : Booted) (started : List Text)
      → rs_enabled member ≡ true
      → boot derive member v m own ≡ some b
      → b.end ≡ supervising started
      → m.marker_writable ≡ true
      → Attempts (record v { has_data = true; marker = b.marker }) before
      → rs_enabled config ≡ false
      → boot derive config before later args ≡ some after
      → IsSafe later.recovery ⊎ Stops before after
  unfolding boot replay_needed
  revert-IsSafe member config v before m later own args b after started r h s w between off k =
      let c = with_passthrough member own in
      let on : rs_enabled c ≡ true = rs_enabled-with_passthrough member own ∙ r in
      let marked : b.marker ≡ true =
        elim (Bool-cases (not m.lock_acquired || not m.keyfile_reconciled)) [
          | inl e ↦ absurd (ground (arith, e, on, h, s))
          | inr e ↦
              let same : member_boot m v c (merge_own_flags (own_flags c) own)
                    (boot_credentials derive c v m).keyfile
                  ≡ b =
                ground (arith, e, on, h) in
              ap (λ (b : Booted). b.marker) (sym same)
              ∙ member_boot-marker m v c (merge_own_flags (own_flags c) own) started
                  (boot_credentials derive c v m).keyfile (ap (λ (b : Booted). b.end) same ∙ s) w
        ] in
      let (d, e) =
        Attempts-marker (record v { has_data = true; marker = b.marker }) before between refl
          marked in
      standalone_boot-IsSafe config before later args after off (rw (d, e) refl) k
