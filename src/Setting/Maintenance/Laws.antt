-- ===== src/Setting/Maintenance/Laws.antt =====
-- How an administrator switches the maintenance mode.
use openapi_nestjs_auth_mong.Prelude.{
  if◌then◌else◌, Option-cases, String, ◌≡◌, sym, ap, ◌∙◌, inl, inr, Bool, true, false, Option, some,
  [], ◌∷◌, arith, eq_refl,
}
use openapi_nestjs_auth_mong.Http.{service_unavailable, http, service_unavailable_error}
use openapi_nestjs_auth_mong.Documents.{SettingValue, Setting}
use openapi_nestjs_auth_mong.Database.{IsKeyed}
use openapi_nestjs_auth_mong.Platform.{Platform}
use openapi_nestjs_auth_mong.Handler.{
  World, returns, throws, Handler, ◌>>=◌, ◌>>◌, pure, or_throw, unknown,
}
use openapi_nestjs_auth_mong.Handler.Rules.{past_guard}
use openapi_nestjs_auth_mong.Setting.Service as Service
use openapi_nestjs_auth_mong.Setting.Service.{convert_value, named}
use openapi_nestjs_auth_mong.Setting.Controllers.{setting_get_guard, update}
use openapi_nestjs_auth_mong.Setting.Maintenance.{maintenance}
use openapi_nestjs_auth_mong.Helper.Convert.{is_truthy}
use openapi_nestjs_auth_mong.Request.Param.{param_guard}
use openapi_nestjs_auth_mong.Auth.Guards.{auth_admin_jwt_guard}
use openapi_nestjs_auth_mong.Integrity.Quiet.{admin-IsQuiet}

-- What is relied on of a saved setting: the casts, which trim its name, keep the name
-- `maintenance`, and whether its value is true.
pub record KeepsSetting (cast : Setting → Setting) : Type 0 where
  pub keeps_name : (s : Setting) → s.name ≡ "maintenance" → (cast s).name ≡ "maintenance"
  pub keeps_truth : (s : Setting) → is_truthy (cast s).value ≡ is_truthy s.value

module _ (p : Platform) {cast : Setting → Setting}
    (settings : IsKeyed (λ (s : Setting). s.id) cast p.settings) (keeps : KeepsSetting cast) where
  -- the request behind its token
  abbrev set_value : String → Option String → SettingValue → Handler String
  set_value i description value = do
    param_guard p i
    setting ← setting_get_guard p i
    or_throw (Service.update_one_by_id p setting.id description value) unknown
    pure setting.id

  -- the setting `i` has the name and a value of this truth
  abbrev HasValue : String → String → Bool → World → Type 0
  HasValue i name b w =
      (s : Setting) × (p.settings.find_by_id i w.settings ≡ some s)
      × (s.name ≡ name)
      × (is_truthy s.value ≡ b)

  set_value-HasValue :
      (i : String) (description : Option String) (value : SettingValue) (w : World) (s : Setting)
      (j : String)
      → p.settings.find_by_id i w.settings ≡ some s
      → s.name ≡ "maintenance"
      → (set_value i description value w).0 ≡ returns j
      → HasValue i "maintenance"
          (is_truthy (convert_value value))
          (set_value i description value w).1
  unfolding param_guard setting_get_guard Service.update_one_by_id
  set_value-HasValue i description value w s j found name h =
      let changed : Setting = record s { description = description; value = convert_value value } in
      let same = settings.id_found i w.settings found in
      elim (Option-cases (p.settings.save changed w.settings)) [
        | inl refused ↦ ground arith
        | inr (ss, saved) ↦ (
          cast changed,
          ground (arith, settings.saved changed w.settings saved i, same, eq_refl i),
          keeps.keeps_name changed name,
          keeps.keeps_truth changed,
        )
      ]

  -- the name of the setting `i`, if it is there, finds it
  abbrev ByName : String → World → Type 0
  ByName i v =
      (t : Setting)
      → p.settings.find_by_id i v.settings ≡ some t
      → p.settings.find_one (named p t.name) v.settings ≡ some t

  switched :
      (i : String) (v : World) (s : Setting) (b : Bool)
      → ByName i v
      → p.settings.find_by_id i v.settings ≡ some s
      → s.name ≡ "maintenance"
      → is_truthy s.value ≡ b
      → p.reachable v.moment ≡ true
      → (maintenance p v).0 ≡ (
          if b
          then throws (
              http service_unavailable service_unavailable_error
                "http.serverError.serviceUnavailable")
          else returns tt)
  unfolding maintenance
  switched i v s true by_name found name truth up = ground (arith, by_name s found)
  switched i v s false by_name found name truth up = ground (arith, by_name s found)

  -- Once an administrator's update of the setting `maintenance` has returned, a request that the
  -- middleware guards is refused with 503 if the value, converted, is true to JavaScript, and
  -- passes if it is not, while the settings stay, the name of that setting finds it, and the
  -- database answers.
  pub update_switches_maintenance :
      (token i : String) (description : Option String) (value : SettingValue) (w v : World)
      (s : Setting) (j : String)
      → p.settings.find_by_id i w.settings ≡ some s
      → s.name ≡ "maintenance"
      → (update p token i description value w).0 ≡ returns j
      → v.settings ≡ (update p token i description value w).1.settings
      → ByName i v
      → p.reachable v.moment ≡ true
      → (maintenance p v).0 ≡ (
          if is_truthy (convert_value value)
          then throws (
              http service_unavailable service_unavailable_error
                "http.serverError.serviceUnavailable")
          else returns tt)
  unfolding update
  update_switches_maintenance token i description value w v s j found name h same by_name up =
      let guard = auth_admin_jwt_guard p ("SETTING_READ" ∷ "SETTING_UPDATE" ∷ []) token in
      let past = past_guard (set_value i description value) j guard w h in
      let admitted = (admin-IsQuiet p ("SETTING_READ" ∷ "SETTING_UPDATE" ∷ []) token).quiet w in
      let set =
        set_value-HasValue i description value (guard w).1 s j
          (ap (p.settings.find_by_id i) admitted.4 ∙ found) name past.0 in
      switched i v set.0 (is_truthy (convert_value value)) by_name
        (ap (p.settings.find_by_id i) (same ∙ ap (λ u. u.settings) (sym past.1)) ∙ set.1) set.2
        set.3 up
