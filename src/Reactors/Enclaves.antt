-- ===== src/Reactors/Enclaves.antt =====
-- mpc.c: the program's enclaves and their connections. There is one enclave, which has none.
use lf_benchmarks.Common.{
  false, ℕ, zero, ◌≤◌, ◌≡◌, ◌↔◌, Option, none, some, List, [], ◌∷◌, length, arith,
}
use lf_benchmarks.Int.{ℤ, pos, negsuc, eqb_ℤ}

-- `_enclave_id`
abbrev pub mpc_main : ℤ
mpc_main = pos 0

-- The arrays have one element that is not used.
abbrev pub mpc_main_downstream : List ℤ
mpc_main_downstream = negsuc 0 ∷ []

abbrev pub mpc_main_upstream : List ℤ
mpc_main_upstream = negsuc 0 ∷ []

abbrev pub forever : ℤ
forever = pos 9_223_372_036_854_775_807

abbrev pub mpc_main_upstream_delay : List ℤ
mpc_main_upstream_delay = forever ∷ []

-- The array and the number of its elements that count; `none` where the program exits.
unfoldable pub lf_get_upstream_of : ℤ → Option (List ℤ × ℕ)
lf_get_upstream_of (ℤ.pos zero) = some (mpc_main_upstream, 0)
lf_get_upstream_of _ = none

unfoldable pub lf_get_downstream_of : ℤ → Option (List ℤ × ℕ)
lf_get_downstream_of (ℤ.pos zero) = some (mpc_main_downstream, 0)
lf_get_downstream_of _ = none

unfoldable pub lf_get_upstream_delay_of : ℤ → Option (List ℤ × ℕ)
lf_get_upstream_delay_of (ℤ.pos zero) = some (mpc_main_upstream_delay, 0)
lf_get_upstream_delay_of _ = none

-- An answer whose count is within its array.
abbrev pub Fits : Option (List ℤ × ℕ) → Type 0
Fits none = Unit
Fits (some (a, n)) = n ≤ length a

abbrev pub count : Option (List ℤ × ℕ) → Option ℕ
count none = none
count (some (a, n)) = some n

-- Whatever enclave is asked for, the counts that the three functions return are within the arrays
-- that they give, an enclave has as many delays as upstream enclaves, and the program exits for
-- every id but that of `mpc_main`.
pub enclaves_fit :
    (id : ℤ)
    → Fits (lf_get_upstream_of id)
      × Fits (lf_get_downstream_of id)
      × Fits (lf_get_upstream_delay_of id)
      × (count (lf_get_upstream_of id) ≡ count (lf_get_upstream_delay_of id))
      × ((lf_get_upstream_of id ≡ none) ↔ (eqb_ℤ id mpc_main ≡ false))
      × ((lf_get_downstream_of id ≡ none) ↔ (eqb_ℤ id mpc_main ≡ false))
unfolding lf_get_upstream_of lf_get_downstream_of lf_get_upstream_delay_of
enclaves_fit id = ground arith
