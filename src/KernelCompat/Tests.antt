-- ===== src/KernelCompat/Tests.antt =====
-- A kernel of the affected range, and inherited tunables.
use mongo_ha.Base.{◌≡◌, refl, true, false, some, [], ◌∷◌, ◌++◌, List}
use mongo_ha.Text.{codes}
use mongo_ha.Text.Trim
use mongo_ha.Text.Split.{split, split_once}
use mongo_ha.Text.Number
use mongo_ha.KernelCompat.{affected_kernel, with_rseq_fallback, Text}
use mongo_ha.KernelCompat.Tunables.{with_rseq_fallback-entries, Stays}

affected_release : affected_kernel (codes "6.19.3-arch1\n") ≡ some true
unfolding affected_kernel split_once Trim.trim Number.is_digit Number.parse_unsigned
affected_release = refl

fixed_release : affected_kernel (codes "7.0.14") ≡ some false
unfolding affected_kernel split_once Trim.trim Number.is_digit Number.parse_unsigned
fixed_release = refl

with_rseq_fallback-entries_example :
    (kept : List Text) × (split b':'
        (with_rseq_fallback (some (codes "glibc.malloc.check=1::glibc.pthread.rseq=0")))
      ≡ kept ++ codes "glibc.pthread.rseq=1" ∷ [])
    × Stays (split b':' (codes "glibc.malloc.check=1::glibc.pthread.rseq=0")) kept
with_rseq_fallback-entries_example =
    with_rseq_fallback-entries (some (codes "glibc.malloc.check=1::glibc.pthread.rseq=0"))
