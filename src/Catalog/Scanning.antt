-- ===== src/Catalog/Scanning.antt =====
-- The loop of Invalidate in services/backend/catalog/internal/domain/valkey/valkey.go ends with
-- the iteration of SCAN.
use perfect_gift.Prelude.{
  zero, ℕ, suc, String, true, none, List, ◌≡◌, arith, Bool-cases, inl, inr, eqb,
}
use perfect_gift.Catalog.Valkey.{Valkey, delete_all, invalidate_from}

module _ (scan : ℕ → Valkey → List String × ℕ) where
  -- What is left after a page.
  abbrev pub without_page : ℕ → Valkey → Valkey
  without_page cursor v = record v { entries = delete_all (scan cursor v).0 v.entries }

  -- The iteration from a cursor has at most so many pages.
  pub data Ends : ℕ → ℕ → Valkey → Type 0 where
    last : {n cursor : ℕ} {v : Valkey} → (scan cursor v).1 ≡ 0 → Ends (suc n) cursor v
    more :
        {n cursor : ℕ} {v : Valkey}
        → Ends n (scan cursor v).1 (without_page cursor v)
        → Ends (suc n) cursor v

  -- Fuel for the pages of the iteration is enough: Invalidate then returns no error.
  pub invalidate-Ends :
      (fuel cursor : ℕ) (v : Valkey)
      → v.up ≡ true
      → Ends fuel cursor v
      → (invalidate_from scan fuel cursor v).0 ≡ none
  unfolding invalidate_from
  invalidate-Ends zero cursor v up e = elim e [ ]
  invalidate-Ends (suc fuel) cursor v up (last e) = ground arith
  invalidate-Ends (suc fuel) cursor v up (more m) =
      let rest = invalidate-Ends fuel (scan cursor v).1 (without_page cursor v) up m in
      elim (Bool-cases (eqb (scan cursor v).1 0)) [ inl z ↦ ground arith | inr z ↦ ground arith ]
