-- ===== src/Integrity/Accounts.antt =====
-- signUp and changePassword, by what their one write does: a rule for the write that goes from P to I
-- is a rule for the request.
use openapi_nestjs_auth_mong.Prelude.{String, ◌≡◌, refl, not, Option, none, some}
use openapi_nestjs_auth_mong.Http.{
  bad_request, not_found, http, auth_password_not_match_error,
  auth_password_new_must_difference_error, user_not_found_error, role_not_found_error,
}
use openapi_nestjs_auth_mong.Documents.{Role, User}
use openapi_nestjs_auth_mong.Database.{IsKeyed}
use openapi_nestjs_auth_mong.Platform.{Platform}
use openapi_nestjs_auth_mong.Handler.{World, or_fail, throw_if, unknown}
use openapi_nestjs_auth_mong.Handler.Rules.{
  After, Ensures, bind-Ensures, quiet-Ensures, or_throw-Ensures,
}
use openapi_nestjs_auth_mong.Auth.Service.{validate_user}
use openapi_nestjs_auth_mong.Auth.Service as AuthService
use openapi_nestjs_auth_mong.Auth.SignUp.{
  AuthSignUp, new_account, register, sign_up, issue, user_role, reject_existing,
}
use openapi_nestjs_auth_mong.Auth.Password.{renew, change_password}
use openapi_nestjs_auth_mong.User.Service.{
  AuthPassword, update_password, find_one_by_id, check_exist,
}
use openapi_nestjs_auth_mong.Role.Service.{find_one}
use openapi_nestjs_auth_mong.Integrity.{HasRole}
use openapi_nestjs_auth_mong.Integrity.Frame
use openapi_nestjs_auth_mong.Integrity.Frame.{Frame, Ready, Ready-Frame}
use openapi_nestjs_auth_mong.Integrity.Users.{Saves, create_user-Ensures}
use openapi_nestjs_auth_mong.Integrity.Quiet

module _ (p : Platform) {I P : World → Type 0} (frame : Frame I P) where
  register-Ensures :
      (body : AuthSignUp) (role : Role)
      → Saves p frame role.id
      → Ensures I (Ready P p role.id) (register p body role) (λ _. I)
  unfolding register
  register-Ensures body role saves =
      Frame.skip (Ready-Frame frame p role.id) {m = AuthService.create_password p body.password}
        (Quiet.create_password-IsQuiet p body.password)
        λ password.
          bind-Ensures I {f = issue p} (λ _. I)
            (create_user-Ensures p frame (new_account body role password) saves)
            (λ created. quiet-Ensures frame.after (λ w h. h) (Quiet.issue-IsQuiet p created))

  find_user_role-Ensures :
      {role_cast : Role → Role}
      → IsKeyed (λ (r : Role). r.id) role_cast p.roles
      → Ensures I P
          (find_one p (user_role p))
          (λ o w. P w × ((r : Role) → o ≡ some r → HasRole p r.id w))
  unfolding find_one
  find_user_role-Ensures roles =
      Frame.ask frame p (λ w. p.roles.find_one (user_role p) w.roles) _
        λ w h. (h, λ r e. (r, roles.one_stored (user_role p) w.roles e))

  pub sign_up-Ensures :
      {role_cast : Role → Role} (body : AuthSignUp)
      → IsKeyed (λ (r : Role). r.id) role_cast p.roles
      → ((role : String) → Saves p frame role)
      → Ensures I P (sign_up p body) (λ _. I)
  unfolding sign_up
  sign_up-Ensures body roles saves = bind-Ensures I _ (find_user_role-Ensures roles) λ found.
      bind-Ensures I (λ r. Ready P p r.id) (record { at = role_found found })
        λ r.
          Frame.skip (Ready-Frame frame p r.id)
            {m = check_exist p body.email body.mobile_number none}
            (Quiet.check_exist-IsQuiet p body.email body.mobile_number none)
            λ check.
              Frame.skip_then (Ready-Frame frame p r.id) {m = reject_existing check}
                (Quiet.reject_existing-IsQuiet check)
                (or_throw-Ensures unknown (register-Ensures body r (saves r.id)))
    where
      role_found :
          (o : Option Role) (w : World)
          → P w × ((r : Role) → o ≡ some r → HasRole p r.id w)
          → After
              (λ (r : Role) (w : World). Ready P p r.id w)
              I
              (or_fail (http not_found role_not_found_error "role.error.notFound") o w).0
              (or_fail (http not_found role_not_found_error "role.error.notFound") o w).1
      role_found none w h = frame.weaken w h.0
      role_found (some r) w h = (h.0, h.1 r refl)

  -- The new password is stored for the user that was read.
  abbrev pub Renews : Type 0
  Renews = (i : String) (a : AuthPassword) → Ensures I P (update_password p i a) (λ _. I)

  renew-Ensures :
      (new_password : String) (user : User)
      → Renews
      → Ensures I P (renew p new_password user) (λ _. I)
  renew-Ensures new_password user renews =
      Frame.skip frame {m = AuthService.create_password p new_password}
        (Quiet.create_password-IsQuiet p new_password) (λ a. renews user.id a)

  pub change_password-Ensures :
      (old_password new_password i : String)
      → Renews
      → Ensures I P (change_password p old_password new_password i) (λ _. I)
  unfolding change_password
  change_password-Ensures old_password new_password i renews =
      Frame.skip frame {m = find_one_by_id p i} (Quiet.find_user-IsQuiet p i) λ found.
        Frame.skip frame
          {m = or_fail (http not_found user_not_found_error "user.error.notFound") found}
          (Quiet.or_fail-IsQuiet _ found)
          λ user.
            Frame.skip_then frame
              {m = throw_if (not (validate_user p old_password user.password))
                (http bad_request auth_password_not_match_error "auth.error.passwordNotMatch")}
              (Quiet.throw_if-IsQuiet _ _)
              (Frame.skip_then frame
                {m = throw_if (validate_user p new_password user.password) (
                  http bad_request auth_password_new_must_difference_error
                    "auth.error.newPasswordMustDiffer")}
                (Quiet.throw_if-IsQuiet _ _)
                (or_throw-Ensures unknown (renew-Ensures new_password user renews)))
