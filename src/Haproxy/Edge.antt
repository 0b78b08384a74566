-- ===== src/Haproxy/Edge.antt =====
-- The nodes that the edge is given, what it reports of the primary, and how it exits.
use mongo_ha.Base.{
  ◌==◌, All, In, All-append, In-append_right, In-append, ℕ, ◌^◌, ◌<◌, ◌≡◌, refl, sym, ap, ◌↔◌, ◌⊎◌,
  inl, inr, Bool, true, false, Option, none, some, List, [], ◌∷◌, ◌++◌, map, arith,
}
use mongo_ha.Text.{Text}
use mongo_ha.Text.Trim.{is_whitespace, NoWhitespace, trim_id}
use mongo_ha.Text.Split.{first_piece, split_once_join, join, split-join}
use mongo_ha.Text.Number.{is_digit, decimal_within, decimal}
use mongo_ha.Text.Decimal.{parse_unsigned-decimal, decimal_within_digits}
use mongo_ha.Haproxy.{
  MongoNode, parse_node, collect, parse_nodes, check_primary_health, proxy_runs, wait_failed,
  proxy_exited, exit, Tick, judged, monitor,
}

-- A host without commas, colons and white space, and a port of 16 bits.
abbrev pub IsPlain : Text × ℕ → Type 0
IsPlain (host, port) =
    All (λ c. ((c == b',') ≡ false) × ((c == b':') ≡ false) × (is_whitespace c ≡ false)) host
    × (port < 2 ^ 16)

abbrev pub entry_text : Text × ℕ → Text
entry_text (host, port) = host ++ b':' ∷ decimal port

-- The node of a host and a port, named by the first label of the host.
abbrev pub node_at : Text × ℕ → MongoNode
node_at (host, port) = record { name = first_piece b'.' host; host = host; mongo_port = port }

All-map : {P Q : ℕ → Type 0} → ((c : ℕ) → P c → Q c) → (s : Text) → All P s → All Q s
All-map f [] h = tt
All-map f (c ∷ s) (p, h) = (f c p, All-map f s h)

digit_plain : (c : ℕ) → is_digit c ≡ true → ((c == b',') ≡ false) × (is_whitespace c ≡ false)
unfolding is_digit is_whitespace
digit_plain c h = (ground (arith, h), ground (arith, h))

decimal_plain : (n : ℕ) → All (λ c. ((c == b',') ≡ false) × (is_whitespace c ≡ false)) (decimal n)
unfolding decimal
decimal_plain n = All-map digit_plain (decimal_within 20 n) (decimal_within_digits 20 n)

entry-NoWhitespace : (e : Text × ℕ) → IsPlain e → NoWhitespace (entry_text e)
unfolding is_whitespace
entry-NoWhitespace (host, port) (h, p) =
    All-append (λ c. is_whitespace c ≡ false) host (b':' ∷ decimal port)
      (All-map (λ c (a, b, w). w) host h)
      (refl, All-map (λ c (a, w). w) (decimal port) (decimal_plain port))

entry_no_comma : (e : Text × ℕ) → IsPlain e → All (λ c. (c == b',') ≡ false) (entry_text e)
entry_no_comma (host, port) (h, p) =
    All-append (λ c. (c == b',') ≡ false) host (b':' ∷ decimal port)
      (All-map (λ c (a, b, w). a) host h)
      (refl, All-map (λ c (a, w). a) (decimal port) (decimal_plain port))

parse_node-entry : (e : Text × ℕ) → IsPlain e → parse_node (entry_text e) ≡ inl (node_at e)
unfolding parse_node
parse_node-entry (host, port) (h, p) =
    rw
      (
        trim_id (entry_text (host, port)) (entry-NoWhitespace (host, port) (h, p)),
        split_once_join b':' host (decimal port) (All-map (λ c (a, b, w). b) host h),
        parse_unsigned-decimal (2 ^ 16) port p (omega (arith, p)),
      )
      refl

collect-entries :
    (es : List (Text × ℕ))
    → All IsPlain es
    → collect (map parse_node (map entry_text es)) ≡ inl (map node_at es)
unfolding collect
collect-entries [] h = refl
collect-entries (e ∷ es) (p, h) = rw (parse_node-entry e p, collect-entries es h) refl

entries_no_comma :
    (es : List (Text × ℕ))
    → All IsPlain es
    → All (λ x. All (λ c. (c == b',') ≡ false) x) (map entry_text es)
entries_no_comma [] h = tt
entries_no_comma (e ∷ es) (p, h) = (entry_no_comma e p, entries_no_comma es h)

-- The list that `host:port` entries make with commas parses to their nodes, in their order and each
-- named by the first label of its host, for hosts without commas, colons and white space and for
-- ports of 16 bits; there is at least one entry.
pub parse_nodes-join :
    (e : Text × ℕ) (es : List (Text × ℕ))
    → IsPlain e
    → All IsPlain es
    → parse_nodes (join b',' (map entry_text (e ∷ es))) ≡ inl (map node_at (e ∷ es))
unfolding parse_nodes
parse_nodes-join e es p h =
    rw
      (split-join b',' (entry_text e) (map entry_text es) (entry_no_comma e p)
        (entries_no_comma es h))
      (collect-entries (e ∷ es) (p, h))

-- Haproxy runs for some turns and then exits by itself with 0.
abbrev pub ExitsClean : List Tick → Type 0
ExitsClean [] = ⊥
ExitsClean ((proxy, body) ∷ rest) =
    (proxy ≡ proxy_exited (some 0)) ⊎ ((proxy ≡ proxy_runs) × ExitsClean rest)

quiet_judged : (alerted : Bool) (o : Option Bool) → In (exit 0) (judged alerted o).1 → ⊥
quiet_judged alerted (some true) m = m
quiet_judged true (some false) m = m
quiet_judged false (some false) (inl e) = cc
quiet_judged false (some false) (inr m) = m
quiet_judged alerted none m = m

-- The edge's container exits with 0 exactly when haproxy exits by itself with 0 after turns in which
-- it ran.
pub monitor-exit_iff :
    (alerted : Bool) (ticks : List Tick) → In (exit 0) (monitor alerted ticks) ↔ ExitsClean ticks
unfolding monitor
monitor-exit_iff alerted [] = (λ m. m, λ m. m)
monitor-exit_iff alerted ((wait_failed, body) ∷ rest) =
    (λ m. elim m [ inl e ↦ cc | inr k ↦ absurd k ], λ x. elim x [ inl e ↦ cc | inr (e, r) ↦ cc ])
monitor-exit_iff alerted ((proxy_exited none, body) ∷ rest) = (
  λ m. elim m [ inl e ↦ absurd (ground (arith, e)) | inr k ↦ absurd k ],
  λ x. elim x [ inl e ↦ absurd (ground (arith, e)) | inr (e, r) ↦ cc ],
)
monitor-exit_iff alerted ((proxy_exited (some n), body) ∷ rest) = (
  λ m. elim m [
    | inl e ↦
        let zero_code : n ≡ 0 = ground (arith, e) in inl (ap (λ n. proxy_exited (some n)) zero_code)
    | inr k ↦ absurd k
  ],
  λ x. elim x [
    | inl e ↦ let zero_code : n ≡ 0 = ground (arith, e) in inl (ap exit (sym zero_code))
    | inr (e, r) ↦ cc
  ],
)
monitor-exit_iff alerted ((proxy_runs, body) ∷ rest) =
    let next = judged alerted (check_primary_health body) in
    let (to, from) = monitor-exit_iff next.0 rest in
    (
      λ m. elim (In-append (exit 0) next.1 (monitor next.0 rest) m) [
        | inl k ↦ absurd (quiet_judged alerted (check_primary_health body) k)
        | inr k ↦ inr (refl, to k)
      ],
      λ x. elim x [
        | inl e ↦ cc
        | inr (e, r) ↦ In-append_right (exit 0) next.1 (monitor next.0 rest) (from r)
      ],
    )
