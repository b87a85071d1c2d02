-- ===== src/Auth/Rotation/Family.antt =====
-- The tokens of a family that are not revoked.
use goauth_server.Prelude.{
  ℕ, ◌+◌, ◌≤◌, ◌≡◌, Bool, true, false, not, ◌&&◌, some, List, [], ◌∷◌, ◌==◌, ==_refl, arith,
  if◌then◌else◌, select_first, update_where, select_first-cons, inl, inr, subst, sym,
}
use goauth_server.Model.{Uuid, RefreshToken}
use goauth_server.Auth.Rotation.Retires.{Retires}

-- whether `r` is a live token of the family
abbrev pub is_live : Uuid → RefreshToken → Bool
is_live family r = r.token_family_id == family && not r.is_revoked

-- how many live tokens the family has
unfoldable pub live : Uuid → List RefreshToken → ℕ
live family [] = 0
live family (r ∷ rows) = (if is_live family r then 1 else 0) + live family rows

module _ {f : RefreshToken → RefreshToken} (retires : Retires f) (p : RefreshToken → Bool) where
  pub live-update_where-le :
      (family : Uuid) (rows : List RefreshToken)
      → live family (update_where p f rows) ≤ live family rows
  unfolding live update_where
  live-update_where-le family [] = omega arith
  live-update_where-le family (r ∷ rows) =
      ground (arith, live-update_where-le family rows, retires.revoked r)

  live-update_where-cons :
      (old : RefreshToken) (rows : List RefreshToken)
      → p old ≡ true
      → old.is_revoked ≡ false
      → live old.token_family_id (update_where p f (old ∷ rows)) + 1
        ≤ live old.token_family_id (old ∷ rows)
  unfolding live update_where
  live-update_where-cons old rows hp hr = ground (
    arith,
    live-update_where-le old.token_family_id rows,
    retires.revoked old,
    ==_refl old.token_family_id,
  )

  -- Where the row that a search found is among the updated ones, one live token fewer is left.
  pub live-update_where-lt :
      (q : RefreshToken → Bool) (old : RefreshToken) (rows : List RefreshToken)
      → p old ≡ true
      → select_first q rows ≡ some old
      → old.is_revoked ≡ false
      → live old.token_family_id (update_where p f rows) + 1 ≤ live old.token_family_id rows
  unfolding live update_where select_first
  live-update_where-lt q old [] hp hs hr = cc
  live-update_where-lt q old (r ∷ rows) hp hs hr = elim (select_first-cons q r old rows hs) [
    | inl (e, same) ↦
        subst
          (λ x.
            live old.token_family_id (update_where p f (x ∷ rows)) + 1
            ≤ live old.token_family_id (x ∷ rows))
          (sym same) (live-update_where-cons old rows hp hr)
    | inr (e, rest) ↦ ground (arith, live-update_where-lt q old rows hp rest hr, retires.revoked r)
  ]
