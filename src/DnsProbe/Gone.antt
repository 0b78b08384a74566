-- ===== src/DnsProbe/Gone.antt =====
-- What a verdict of NXDOMAIN rests on.
use mathlib.Core.Path.{subst}
use mongo_ha.Base.{
  ◌||◌, ◌∙◌, ◌⊎◌, ◌≤◌, ◌==◌, ◌+◌, ◌/◌, ◌%◌, Option-cases, and_then, All, find_map, ℕ, ◌≡◌, refl, ap,
  ◌≢◌, ◌↔◌, inl, inr, Bool, true, false, Option, none, some, List, [], ◌∷◌, ◌++◌, arith, all,
  length, sym, Bool-cases, length-append, ==_iff, ltb, not,
}
use mongo_ha.Text.{Text}
use mongo_ha.DnsProbe.{
  gone, encode_query, decode_rcode, query_rcode, verdict_of_rcode, probe_name, label_fits,
  strip_dot, split,
}

-- A packet that answers the question `id` with this code: at least 12 bytes, the two of the id first,
-- then the flags with the response bit set, and the code in the low half of the fourth byte.
pub record AnswersWith (id code : ℕ) (reply : List ℕ) : Type 0 where
  pub high : ℕ
  pub low : ℕ
  pub flags : ℕ
  pub last : ℕ
  pub rest : List ℕ
  pub header : reply ≡ high ∷ low ∷ flags ∷ last ∷ rest
  pub long_enough : 12 ≤ length reply
  pub id_high : high ≡ id / 256 % 256
  pub id_low : low ≡ id % 256
  pub is_response : flags / 128 % 2 ≡ 1
  pub has_code : code ≡ last % 16

decode-AnswersWith :
    (id code : ℕ) (reply : List ℕ) → decode_rcode id reply ≡ some code → AnswersWith id code reply
unfolding decode_rcode
decode-AnswersWith id code [] h = cc
decode-AnswersWith id code (a ∷ []) h = cc
decode-AnswersWith id code (a ∷ b ∷ []) h = cc
decode-AnswersWith id code (a ∷ b ∷ f ∷ []) h = cc
decode-AnswersWith id code (a ∷ b ∷ f ∷ c ∷ rest) h = record {
  high = a;
  low = b;
  flags = f;
  last = c;
  rest = rest;
  header = refl;
  long_enough = ground (arith, h);
  id_high = ground (arith, h);
  id_low = ground (arith, h);
  is_response = ground (arith, h);
  has_code = ground (arith, h);
}

AnswersWith-decode :
    (id code : ℕ) (reply : List ℕ) → AnswersWith id code reply → decode_rcode id reply ≡ some code
unfolding decode_rcode
AnswersWith-decode id code reply w =
    let long : 12 ≤ length (w.high ∷ w.low ∷ w.flags ∷ w.last ∷ w.rest) =
      subst (λ r. 12 ≤ length r) w.header w.long_enough in
    rw w.header (ground (arith, long, w.id_high, w.id_low, w.is_response, w.has_code))

-- The packet answers another question, or none.
abbrev pub IsStray : ℕ → List ℕ → Type 0
IsStray id reply = (code : ℕ) → AnswersWith id code reply → ⊥

decode-IsStray : (id : ℕ) (reply : List ℕ) → (decode_rcode id reply ≡ none) ↔ IsStray id reply
decode-IsStray id reply = (
  λ h code w. absurd (ground (arith, h, AnswersWith-decode id code reply w)),
  λ h. elim (Option-cases (decode_rcode id reply)) [
    | inl e ↦ e
    | inr (c, e) ↦ absurd (h c (decode-AnswersWith id c reply e))
  ],
)

All-IsStray :
    (id : ℕ) (rs : List (List ℕ)) → All (λ r. decode_rcode id r ≡ none) rs ↔ All (IsStray id) rs
All-IsStray id [] = (λ h. h, λ h. h)
All-IsStray id (r ∷ rs) = (
  λ (e, h). ((decode-IsStray id r).0 e, (All-IsStray id rs).0 h),
  λ (e, h). ((decode-IsStray id r).1 e, (All-IsStray id rs).1 h),
)

-- `bare` is the name without the dot at its end, if there is one.
abbrev pub IsBare : Text → Text → Type 0
IsBare name bare =
    (name ≡ bare ++ b'.' ∷ []) ⊎ ((name ≡ bare) × ((s : Text) → name ≢ s ++ b'.' ∷ []))

strip_dot-dotted : (s : Text) → strip_dot (s ++ b'.' ∷ []) ≡ s
unfolding strip_dot
strip_dot-dotted [] = refl
strip_dot-dotted (c ∷ []) = refl
strip_dot-dotted (c ∷ d ∷ s) = ap (◌∷◌ c) (strip_dot-dotted (d ∷ s))

strip_dot-cases : (name : Text) → (name ≡ strip_dot name ++ b'.' ∷ []) ⊎ (strip_dot name ≡ name)
unfolding strip_dot
strip_dot-cases [] = inr refl
strip_dot-cases (c ∷ []) = elim (Bool-cases (c == b'.')) [
  | inl e ↦ rw e (inl (ap (λ x. x ∷ []) ((==_iff c b'.').0 e)))
  | inr e ↦ rw e (inr refl)
]
strip_dot-cases (c ∷ d ∷ s) = elim (strip_dot-cases (d ∷ s)) [
  | inl e ↦ inl (ap (◌∷◌ c) e)
  | inr e ↦ inr (ap (◌∷◌ c) e)
]

strip_dot-IsBare : (name : Text) → IsBare name (strip_dot name)
strip_dot-IsBare name = elim (strip_dot-cases name) [
  | inl e ↦ inl e
  | inr e ↦ inr (
    sym e,
    λ s q.
        let same : name ≡ s = sym e ∙ ap strip_dot q ∙ strip_dot-dotted s in
        let longer : length name ≡ length s + 1 = ap length q ∙ length-append s (b'.' ∷ []) in
        absurd (omega (arith, longer, ap length same)),
  )
]

IsBare-strip_dot : (name bare : Text) → IsBare name bare → strip_dot name ≡ bare
IsBare-strip_dot name bare (inl e) = ap strip_dot e ∙ strip_dot-dotted bare
IsBare-strip_dot name bare (inr (e, n)) = elim (strip_dot-cases name) [
  | inl q ↦ absurd (n (strip_dot name) q)
  | inr q ↦ q ∙ e
]

-- The name has 1 to 255 bytes besides a dot at its end, in labels of 1 to 63 bytes.
pub record IsAskable (name : Text) : Type 0 where
  pub bare : Text
  pub is_bare : IsBare name bare
  pub filled : 1 ≤ length bare
  pub bounded : length bare ≤ 255
  pub labels : All (λ l. (1 ≤ length l) × (length l ≤ 63)) (split b'.' bare)

label_fits_iff : (l : Text) → (label_fits l ≡ true) ↔ ((1 ≤ length l) × (length l ≤ 63))
label_fits_iff l = (λ h. (ground (arith, h), ground (arith, h)), λ (a, b). ground (arith, a, b))

labels_fit_iff :
    (ls : List Text) → (all label_fits ls ≡ true) ↔ All (λ l. (1 ≤ length l) × (length l ≤ 63)) ls
labels_fit_iff [] = (λ h. tt, λ h. refl)
labels_fit_iff (l ∷ ls) = (
  λ h. ((label_fits_iff l).0 (ground (arith, h)), (labels_fit_iff ls).0 (ground (arith, h))),
  λ (e, h). rw ((label_fits_iff l).1 e, (labels_fit_iff ls).1 h) refl,
)

encode-IsAskable : (id : ℕ) (name : Text) → (encode_query id name ≢ none) ↔ IsAskable name
unfolding encode_query
encode-IsAskable id name = (to, from)
  where
    guard : Bool
    guard =
        length (strip_dot name) == 0
        || ltb 255 (length (strip_dot name))
        || not (all label_fits (split b'.' (strip_dot name)))

    to : encode_query id name ≢ none → IsAskable name
    to h = elim (Bool-cases guard) [
      | inl e ↦ absurd (h (rw e refl))
      | inr e ↦ record {
        bare = strip_dot name;
        is_bare = strip_dot-IsBare name;
        filled = ground (arith, e);
        bounded = ground (arith, e);
        labels = (labels_fit_iff (split b'.' (strip_dot name))).0 (ground (arith, e));
      }
    ]

    from : IsAskable name → encode_query id name ≢ none
    from w e =
        let same = IsBare-strip_dot name w.bare w.is_bare in
        let fits : all label_fits (split b'.' (strip_dot name)) ≡ true =
          rw same ((labels_fit_iff (split b'.' w.bare)).1 w.labels) in
        let filled : 1 ≤ length (strip_dot name) = rw same w.filled in
        let bounded : length (strip_dot name) ≤ 255 = rw same w.bounded in
        ground (arith, e, fits, filled, bounded)

-- The first packet that answers the question says NXDOMAIN; those before it answer another one.
abbrev pub FirstSaysGone : ℕ → List (List ℕ) → Type 0
FirstSaysGone id replies =
    (stale : List (List ℕ)) × (reply : List ℕ) × (later : List (List ℕ)) × (replies
      ≡ stale ++ reply ∷ later)
    × All (IsStray id) stale
    × AnswersWith id 3 reply

first_answer :
    (id : ℕ) (replies : List (List ℕ))
    → find_map (decode_rcode id) replies ≡ some 3
    → FirstSaysGone id replies
first_answer id [] e = cc
first_answer id (r ∷ rs) e = go (decode_rcode id r) refl (first_answer id rs)
  where
    go :
        (o : Option ℕ)
        → decode_rcode id r ≡ o
        → (find_map (decode_rcode id) rs ≡ some 3 → FirstSaysGone id rs)
        → FirstSaysGone id (r ∷ rs)
    go (some c) q rec = ([], r, rs, refl, tt, decode-AnswersWith id 3 r (ground (arith, q, e)))
    go none q rec =
        let (stale, reply, later, p, a, s) = rec (ground (arith, q, e)) in
        (r ∷ stale, reply, later, ap (◌∷◌ r) p, ((decode-IsStray id r).0 q, a), s)

answer_first :
    (id : ℕ) (stale : List (List ℕ)) (reply : List ℕ) (later : List (List ℕ))
    → All (λ r. decode_rcode id r ≡ none) stale
    → decode_rcode id reply ≡ some 3
    → find_map (decode_rcode id) (stale ++ reply ∷ later) ≡ some 3
answer_first id [] reply later a s = ground (arith, s)
answer_first id (r ∷ rs) reply later (q, a) s =
    ground (arith, q, answer_first id rs reply later a s)

-- What makes a name gone.
abbrev pub IsGone : Bool → Bool → ℕ → Text → List (List ℕ) → Type 0
IsGone is_ip has_resolver id name replies =
    (is_ip ≡ false) × (has_resolver ≡ true) × IsAskable name × FirstSaysGone id replies

verdict-gone : (o : Option ℕ) → verdict_of_rcode o ≡ gone → o ≡ some 3
verdict-gone none e = cc
verdict-gone (some c) e = ground arith

query-gone :
    (id : ℕ) (name : Text) (replies : List (List ℕ))
    → query_rcode id name replies ≡ some 3
    → (encode_query id name ≢ none) × FirstSaysGone id replies
unfolding query_rcode
query-gone id name replies e = go (encode_query id name) refl e
  where
    go :
        (o : Option (List ℕ))
        → encode_query id name ≡ o
        → and_then o (λ packet. find_map (decode_rcode id) replies) ≡ some 3
        → (encode_query id name ≢ none) × FirstSaysGone id replies
    go none q f = cc
    go (some packet) q f = (λ n. ground (arith, q, n), first_answer id replies f)

gone-query :
    (id : ℕ) (name : Text) (replies : List (List ℕ))
    → encode_query id name ≢ none
    → FirstSaysGone id replies
    → query_rcode id name replies ≡ some 3
unfolding query_rcode
gone-query id name replies n (stale, reply, later, p, a, s) =
    elim (Option-cases (encode_query id name)) [
      | inl e ↦ absurd (n e)
      | inr (packet, e) ↦
          rw (e, p)
            (answer_first id stale reply later ((All-IsStray id stale).1 a)
              (AnswersWith-decode id 3 reply s))
    ]

-- A name is found gone exactly when it is no IP literal, there is a resolver, it has 1 to 255 bytes in
-- labels of 1 to 63, and the first packet that answers this question carries NXDOMAIN: one of 12 bytes
-- or more with the question's id and the response bit. Those before it answer another question, or
-- none: a timeout, SERVFAIL and a stray reply never count.
pub probe_name-IsGone_iff :
    (is_ip has_resolver : Bool) (id : ℕ) (name : Text) (replies : List (List ℕ))
    → (probe_name is_ip has_resolver id name replies ≡ gone)
      ↔ IsGone is_ip has_resolver id name replies
unfolding probe_name
probe_name-IsGone_iff true r id name replies = (λ e. cc, λ g. absurd (ground (arith, g.0)))
probe_name-IsGone_iff false false id name replies = (λ e. cc, λ g. absurd (ground (arith, g.1)))
probe_name-IsGone_iff false true id name replies = (
  λ e.
      let (n, f) = query-gone id name replies (verdict-gone (query_rcode id name replies) e) in
      (refl, refl, (encode-IsAskable id name).0 n, f),
  λ g. rw (gone-query id name replies ((encode-IsAskable id name).1 g.2) g.3) refl,
)
