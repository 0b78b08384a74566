-- ===== src/Text/Case.antt =====
-- `str::eq_ignore_ascii_case`, and the facts that make it an equivalence.
use mongo_ha.Base.{ℕ, ◌+◌, ◌≡◌, refl, ◌↔◌, Bool, true, ◌&&◌, map, arith, leb, if◌then◌else◌}
use mongo_ha.Text.{Text, text_eq, text_eq_iff}

unfoldable pub to_ascii_lowercase : ℕ → ℕ
to_ascii_lowercase c = if leb b'A' c && leb c b'Z' then c + 32 else c

unfoldable pub eq_ignore_ascii_case : Text → Text → Bool
unfolding to_ascii_lowercase text_eq
eq_ignore_ascii_case s t = text_eq (map to_ascii_lowercase s) (map to_ascii_lowercase t)

pub eq_ignore_ascii_case_iff :
    (s t : Text)
    → (eq_ignore_ascii_case s t ≡ true) ↔ (map to_ascii_lowercase s ≡ map to_ascii_lowercase t)
eq_ignore_ascii_case_iff s t =
    unfold eq_ignore_ascii_case in text_eq_iff (map to_ascii_lowercase s) (map to_ascii_lowercase t)

pub eq_ignore_ascii_case_refl : (s : Text) → eq_ignore_ascii_case s s ≡ true
eq_ignore_ascii_case_refl s = (eq_ignore_ascii_case_iff s s).1 refl

pub eq_ignore_ascii_case_symm : (s t : Text) → eq_ignore_ascii_case s t ≡ eq_ignore_ascii_case t s
eq_ignore_ascii_case_symm s t =
    ground (arith, eq_ignore_ascii_case_iff s t, eq_ignore_ascii_case_iff t s)

pub eq_ignore_ascii_case_trans :
    (s t u : Text)
    → eq_ignore_ascii_case s t ≡ true
    → eq_ignore_ascii_case t u ≡ true
    → eq_ignore_ascii_case s u ≡ true
eq_ignore_ascii_case_trans s t u h k = ground (
  arith,
  eq_ignore_ascii_case_iff s t,
  eq_ignore_ascii_case_iff t u,
  eq_ignore_ascii_case_iff s u,
)
