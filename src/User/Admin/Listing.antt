-- ===== src/User/Admin/Listing.antt =====
-- What the list of the users answers.
use openapi_nestjs_auth_mong.Prelude.{
  length, take, drop, ℤ, pos, ℕ, suc, ◌*◌, ◌≤◌, String, ◌≡◌, ap, ◌∙◌, Bool, none, some, List, [],
  ◌∷◌, map, arith,
}
use openapi_nestjs_auth_mong.Documents.{Role, User, FullUser}
use openapi_nestjs_auth_mong.Database.{Filter, paged}
use openapi_nestjs_auth_mong.Platform.{Platform}
use openapi_nestjs_auth_mong.Handler.{World, returns, Handler, ◌>>=◌, pure}
use openapi_nestjs_auth_mong.Handler.Rules.{past_guard}
use openapi_nestjs_auth_mong.Integrity.Quiet.{admin-IsQuiet}
use openapi_nestjs_auth_mong.Auth.Guards.{auth_admin_jwt_guard}
use openapi_nestjs_auth_mong.Pagination.Laws.{skip_here}
use openapi_nestjs_auth_mong.Pagination.Listing.{ListQuery, Page, page_options, search_for, page_of}
use openapi_nestjs_auth_mong.Pagination as Paging
use openapi_nestjs_auth_mong.User.Service as Service
use openapi_nestjs_auth_mong.User.Admin.{user_search, list}

-- The documents that a filter finds, sorted and all of them.
abbrev pub all_found : Platform → Filter → String × Bool → List User → List User
all_found p f sort ds = p.users.find f (record { limit = none; skip = none; sort = some sort }) ds

-- A limit, which is not zero, and a skip cut a part out of all that is found, and the count is of all
-- that is found. A limit of zero is none at all.
pub record IsPaged (p : Platform) : Type 0 where
  pub cut :
      (f : Filter) (l s : ℕ) (sort : String × Bool) (ds : List User)
      → p.users.find f
          (record { limit = some (pos (suc l)); skip = some (pos s); sort = some sort })
          ds
        ≡ take (suc l) (drop s (all_found p f sort ds))
  pub counted :
      (f : Filter) (sort : String × Bool) (ds : List User)
      → p.users.count_documents f ds ≡ length (all_found p f sort ds)

module _ (p : Platform) (q : ListQuery) where
  -- the request behind its token
  abbrev listed : Handler (Page FullUser)
  listed = do
    users ← Service.find_all p (search_for [] (user_search p) q.search) (page_options q)
    total_data ← Service.get_total p (search_for [] (user_search p) q.search)
    pure (page_of q total_data users)

  listed_page :
      (w : World) (page : Page FullUser)
      → (listed w).0 ≡ returns page
      → (page.items
          ≡ map
              (λ u. p.populate_user u w.roles [])
              (p.users.find (search_for [] (user_search p) q.search) (page_options q) w.users))
        × (page.total_data
            ≡ p.users.count_documents (search_for [] (user_search p) q.search) w.users)
  unfolding Service.find_all Service.get_total
  listed_page w page h = (ground arith, ground arith)

  options :
      (k l : ℕ)
      → q.page ≡ pos (suc k)
      → q.per_page ≡ pos l
      → suc k ≤ 20
      → l ≤ 100
      → page_options q
        ≡ record { limit = some (pos l); skip = some (pos (k * l)); sort = some q.sort }
  options k l at_page at_size few small =
      ap
        (λ (n : ℤ). record {
          limit = some n;
          skip = some (Paging.skip q.page n);
          sort = some q.sort;
        })
        at_size
      ∙ ap
          (λ (n : ℤ). record {
            limit = some (pos l);
            skip = some (Paging.skip n (pos l));
            sort = some q.sort;
          })
          at_page
      ∙ ap (λ (n : ℤ). record { limit = some (pos l); skip = some n; sort = some q.sort })
          (skip_here k l few small)

  -- On a collection that cuts pages: a list of the users that returns, for a page k + 1 of at most
  -- 20 and a size from 1 to 100, holds the users from the place k * size on, as many as the size,
  -- of all that the search finds; its total is the number of all these.
  pub list_page :
      (paged : IsPaged p) (token : String) (w : World) (page : Page FullUser) (k l : ℕ)
      → q.page ≡ pos (suc k)
      → q.per_page ≡ pos (suc l)
      → suc k ≤ 20
      → suc l ≤ 100
      → (list p token q w).0 ≡ returns page
      → (page.items
          ≡ map
              (λ u. p.populate_user u w.roles [])
              (take (suc l) (
                drop
                  (k * suc l)
                  (all_found p (search_for [] (user_search p) q.search) q.sort w.users))))
        × (page.total_data
            ≡ length (all_found p (search_for [] (user_search p) q.search) q.sort w.users))
  unfolding list
  list_page paged token w page k l at_page at_size few small h =
      let guard = auth_admin_jwt_guard p ("USER_READ" ∷ []) token in
      let past = past_guard listed page guard w h in
      let same = (admin-IsQuiet p ("USER_READ" ∷ []) token).quiet w in
      let is = listed_page (guard w).1 page past.0 in
      let filter = search_for [] (user_search p) q.search in
      let whole = λ (rs : List Role) (us : List User). map (λ u. p.populate_user u rs []) us in
      (
        is.0
            ∙ ap (λ rs. whole rs (p.users.find filter (page_options q) (guard w).1.users)) same.1
            ∙ ap (λ us. whole w.roles (p.users.find filter (page_options q) us)) same.0
            ∙ ap (λ o. whole w.roles (p.users.find filter o w.users))
                (options k (suc l) at_page at_size few small)
            ∙ ap (whole w.roles) (paged.cut filter l (k * suc l) q.sort w.users),
        is.1 ∙ ap (p.users.count_documents filter) same.0 ∙ paged.counted filter q.sort w.users,
      )
