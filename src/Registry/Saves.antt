-- ===== src/Registry/Saves.antt =====
-- What a single write does to the accounts.
use openapi_nestjs_auth_mong.Prelude.{
  if◌then◌else◌, String, ◌≡◌, refl, Option, none, some, List, ◌==◌, arith,
}
use openapi_nestjs_auth_mong.Documents.{User}
use openapi_nestjs_auth_mong.Database.{IsKeyed}
use openapi_nestjs_auth_mong.Platform.{Platform}
use openapi_nestjs_auth_mong.Handler.{World, ◌>>=◌, not_null, tick}
use openapi_nestjs_auth_mong.Handler.Rules.{
  After, Ensures, bind-Ensures, store-Ensures, remove-Ensures,
}
use openapi_nestjs_auth_mong.Auth.Password.Laws.{KeepsUser}
use openapi_nestjs_auth_mong.User.Service.{UserCreate, new_user, delete_one_by_id}
use openapi_nestjs_auth_mong.User.Schema.{with_users, user_pre_save, save_user, user_by_id}
use openapi_nestjs_auth_mong.Integrity.Requests.{Request}
use openapi_nestjs_auth_mong.Integrity.Frame
use openapi_nestjs_auth_mong.Integrity.Frame.{Frame, Ready}
use openapi_nestjs_auth_mong.Registry.{
  Accounts, Change, Permitted, Step, account_of, view, apply, stays, registers, removes, waits,
}

module _ (p : Platform) (r : Request) (v : Accounts) where
  abbrev pub Before : World → Type 0
  Before w = (j : String) → view p w j ≡ v j

  abbrev pub Stepped : World → Type 0
  Stepped w = Step r v (view p w)

  pub stay : (w : World) → Before w → Stepped w
  unfolding apply
  stay w same = record { change = stays; permitted = waits r; result = same }

  pub frame : Frame Stepped Before
  unfolding view
  frame = record {
    before = λ w w' same h j. rw same.0 (h j);
    after = λ w w' same h. record {
      change = h.change;
      permitted = h.permitted;
      result = λ j. rw same.0 (h.result j);
    };
    weaken = stay;
  }

module _ (p : Platform) {cast : User → User} (users : IsKeyed (λ (u : User). u.id) cast p.users)
    (keeps : KeepsUser cast) (r : Request) (v : Accounts) where
  stored_account : (u : User) → account_of (cast (user_pre_save p u)) ≡ account_of u
  unfolding user_pre_save
  stored_account u =
      ground
        (arith, keeps.keeps_role (user_pre_save p u), keeps.keeps_is_active (user_pre_save p u))

  saved_view :
      (w : World) (u : User) {us : List User}
      → p.users.save (user_pre_save p u) w.users ≡ some us
      → (j : String)
      → view p (with_users w us) j ≡ (if u.id == j then some (account_of u) else view p w j)
  unfolding view user_pre_save
  saved_view w u saved j =
      ground (arith, users.saved (user_pre_save p u) w.users saved j, stored_account u)

  -- The user is saved, and that is the change.
  save_user-Stepped :
      {Q : World → Type 0} (u : User) (c : Change)
      → Permitted r c
      → ((w : World) → Q w → Before p r v w)
      → ((w : World)
          → Q w
          → (j : String) → (if u.id == j then some (account_of u) else v j) ≡ apply c v j)
      → Ensures (Stepped p r v) Q (save_user p u) (λ _. Stepped p r v)
  save_user-Stepped u c permitted from is =
      store-Ensures p (frame p r v).after (λ w h. stay p r v w (from w h)) with_users
        (λ w. p.users.save (user_pre_save p u) w.users)
        λ w us h saved. record {
          change = c;
          permitted = permitted;
          result = λ j. ground (
            arith,
            saved_view (tick w) u saved j,
            (frame p r v).before w (tick w) (ground arith) (from w h) j,
            is w h j,
          );
        }

  pub create_user-Stepped :
      (i : String) (c : UserCreate)
      → Permitted r (registers i c.role)
      → Ensures
          (Stepped p r v)
          (Ready (Before p r v) p c.role)
          (save_user p (new_user i c))
          (λ _. Stepped p r v)
  unfolding apply
  create_user-Stepped i c permitted =
      save_user-Stepped (new_user i c) (registers i c.role) permitted (λ w h. h.0) (λ w h j. refl)

  -- Every method of UserService that edits a user, for a change that says what becomes of its account.
  pub edit_user-Stepped :
      (g : User → User) (i : String) (c : Change)
      → Permitted r c
      → ((u : User) → (g u).id ≡ u.id)
      → ((u : User) (j : String)
          → v i ≡ some (account_of u)
          → (if i == j then some (account_of (g u)) else v j) ≡ apply c v j)
      → Ensures
          (Stepped p r v)
          (Before p r v)
          (user_by_id p i >>= λ found. not_null found >>= λ user. save_user p (g user))
          (λ _. Stepped p r v)
  unfolding view
  edit_user-Stepped g i c permitted same is =
      bind-Ensures (Stepped p r v)
        (λ o w.
          Before p r v w × ((u : User) → o ≡ some u → (u.id ≡ i) × (v i ≡ some (account_of u))))
        (Frame.ask (frame p r v) p (λ w. p.users.find_by_id i w.users) _
          λ w h. (h, λ u e. (users.id_found i w.users e, ground (arith, h i))))
        λ found.
          bind-Ensures (Stepped p r v)
            (λ u w. Before p r v w × (u.id ≡ i) × (v i ≡ some (account_of u)))
            (record { at = read found })
            λ u.
              save_user-Stepped (g u) c permitted (λ w h. h.0)
                λ w h j. ground (arith, same u, is u j h.2)
    where
      read :
          (o : Option User) (w : World)
          → Before p r v w × ((u : User) → o ≡ some u → (u.id ≡ i) × (v i ≡ some (account_of u)))
          → After
              (λ (u : User) (w : World). Before p r v w × (u.id ≡ i) × (v i ≡ some (account_of u)))
              (Stepped p r v)
              (not_null o w).0
              (not_null o w).1
      read none w h = stay p r v w h.0
      read (some u) w h = let (same_id, account) = h.1 u refl in (h.0, same_id, account)

  pub delete_user-Stepped :
      (i : String)
      → Permitted r (removes i)
      → Ensures (Stepped p r v) (Before p r v) (delete_one_by_id p i) (λ _. Stepped p r v)
  unfolding delete_one_by_id apply view
  delete_user-Stepped i permitted =
      remove-Ensures p (frame p r v).after (stay p r v)
        (λ w. with_users w (p.users.find_by_id_and_delete i w.users))
        λ w h. record {
          change = removes i;
          permitted = permitted;
          result = λ j. ground (arith, users.deleted i w.users j, h j);
        }
