-- ===== src/SessionService/Listed.antt =====
-- What the listings of sessions and of clients return.
use goauth_server.Prelude.{ℕ, ◌≡◌, refl, ap, ◌+◌, Bool, false, List, map, select_all}
use goauth_server.Model.{Db, AccessToken, nil_uuid}
use goauth_server.Environment.{Environment}
use goauth_server.Exec.{Error, Result, ok, err, World, map_error, statement}
use goauth_server.Exec.Hoare.{
  Post, Triple, Triple-bind, Triple-pure, Triple-map_error, Triple-statement, Triple-at,
}
use goauth_server.Exec.Facts.{Any, Unchanged, Triple-assume}
use goauth_server.Repository.Pages.{page, count, newest_first, default_limit}
use goauth_server.Repository.Pages.Sorted.{IsPage, page-IsPage}
use goauth_server.Repository.AccessTokens.{list_access_tokens, count_access_tokens, token_matches}
use goauth_server.UserService.{or_default}
use goauth_server.SessionService.{ListParams, TokenList, to_access_token, list_token_page}

-- What a listing of rows that pass the test `p` returns: a page of them, with the number of all.
pub record IsListing {A : Type 0} (key : A → ℕ) (p : A → Bool) (limit : ℕ) (table rows : List A)
    (total : ℕ) : Type 0 where
  pub is_page : IsPage key p limit rows
  pub counted : total ≡ count (select_all p table)

module _ (e : Environment) (d : Db) {A : Type 0} (p : A → Bool) (table : Db → List A) where
  -- A query for one page.
  pub Triple-page :
      (key : A → ℕ) (limit offset : ℕ) (g : Error → Error)
      → Triple
          (Unchanged d)
          (map_error g (
            statement e
              λ now id d. (page limit offset (newest_first key (select_all p (table d))), d)))
          (λ rows w. Unchanged d w × IsPage key p limit rows)
          Any
  Triple-page key limit offset g =
      Triple-map_error g _ (Triple-statement e _ (λ w x. tt) λ w x. go w x.same _ refl)
    where
      go :
          (w : World)
          → w.db ≡ d
          → (r : Result (List A))
          → page limit offset (newest_first key (select_all p (table w.db))) ≡ r
          → Post
              (λ rows w. Unchanged d w × IsPage key p limit rows)
              Any
              (r, record w { tick = w.tick + 1 })
      go w same (ok rows) h =
          (record { same = same }, page-IsPage key p limit offset (table w.db) rows h)
      go w same (err x) h = tt

  -- The number of all rows that pass.
  pub Triple-count :
      (g : Error → Error)
      → Triple
          (Unchanged d)
          (map_error g (statement e λ now id d. (ok (count (select_all p (table d))), d)))
          (λ n w. n ≡ count (select_all p (table d)))
          Any
  Triple-count g =
      Triple-map_error g _
        (Triple-statement e _ (λ w x. tt) λ w x. ap (λ d. count (select_all p (table d))) x.same)

-- The listing of access tokens returns a page of the rows that have the client, the user and the state
-- of the filter, where a filter that is not given stands for the nil UUID or for the tokens that are
-- not revoked: the newest first, at most as many as the limit, with the number of all such rows.
pub list_token_page_sound :
    (e : Environment) (p : ListParams) (w : World) (r : TokenList)
    → (list_token_page e p w).0 ≡ ok r
    → (rows : List AccessToken) × ((r.tokens ≡ map to_access_token rows)
        × IsListing
            (λ t. t.created_at)
            (token_matches
              (or_default nil_uuid p.client_id)
              (or_default nil_uuid p.user_id)
              (or_default false p.is_revoked))
            (default_limit p.limit)
            w.db.access_tokens
            rows
            r.total)
unfolding list_token_page list_access_tokens count_access_tokens
list_token_page_sound e p w r h = Triple-at listed w r (record { same = refl }) h
  where
    listed :
        Triple
          (Unchanged w.db)
          (list_token_page e p)
          (λ r x.
            (rows : List AccessToken) × ((r.tokens ≡ map to_access_token rows)
              × IsListing
                  (λ t. t.created_at)
                  (token_matches
                    (or_default nil_uuid p.client_id)
                    (or_default nil_uuid p.user_id)
                    (or_default false p.is_revoked))
                  (default_limit p.limit)
                  w.db.access_tokens
                  rows
                  r.total))
          Any
    listed =
        Triple-bind _ _ _ (Triple-page e w.db _ (λ d. d.access_tokens) (λ t. t.created_at) _ _ _)
          λ rows. Triple-assume _ λ is_page.
            Triple-bind _ _ _ (Triple-count e w.db _ (λ d. d.access_tokens) _) λ total.
              Triple-pure _
                λ w' counted. (rows, (refl, record { is_page = is_page; counted = counted }))
