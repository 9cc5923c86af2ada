-- ===== src/StatusText/Tests.antt =====
-- The texts of some codes.
use fs_nasa_cfs_psp.Base.{ℕ, ◌≡◌, refl, some, List, [], ◌∷◌, arith, length, replicate}
use fs_nasa_cfs_psp.Status.{negsuc, error_not_implemented, code}
use fs_nasa_cfs_psp.StatusText.{status_string_length, snprintf, status_to_string}
use fs_nasa_cfs_psp.StatusText.RoundTrip.{IsInt32, c_text, read_status, status_to_string-reads}

-- "-27", the NUL, and the rest as it was.
not_implemented :
    status_to_string (code error_not_implemented) (some (replicate 12 9))
    ≡ some (45 ∷ 50 ∷ 55 ∷ 0 ∷ replicate 8 9)
unfolding status_to_string code
not_implemented = refl

truncated : snprintf (9 ∷ 9 ∷ 9 ∷ []) 3 (65 ∷ 66 ∷ 67 ∷ []) ≡ 65 ∷ 66 ∷ 0 ∷ []
unfolding snprintf
truncated = refl

-- The lowest code takes the whole buffer.
status_to_string-reads_example :
    (out : List ℕ) × (status_to_string (negsuc 2147483647) (some (replicate 12 9)) ≡ some out)
    × (length out ≡ status_string_length)
    × (read_status (c_text out) ≡ negsuc 2147483647)
unfolding IsInt32
status_to_string-reads_example =
    status_to_string-reads (negsuc 2147483647) (replicate 12 9) (omega arith) refl
