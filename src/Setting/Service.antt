-- ===== src/Setting/Service.antt =====
-- setting/service/setting.service.ts
use openapi_nestjs_auth_mong.Prelude.{ℕ, String, Option, some, List, [], ◌∷◌}
use openapi_nestjs_auth_mong.Documents.{SettingValue, text, number, boolean, Setting}
use openapi_nestjs_auth_mong.Database.{text, equals, Filter, where_all, FindAllOptions, paged}
use openapi_nestjs_auth_mong.Platform.{Platform}
use openapi_nestjs_auth_mong.Handler.{
  World, Handler, ◌>>=◌, ◌>>◌, pure, not_null, query, at_moment, write,
}
use openapi_nestjs_auth_mong.Helper.Convert.{convert_string_to_number_or_boolean_if_possible}
use mathlib.Core.Option

-- SettingCreateDto
pub record SettingCreate : Type 0 where
  pub name : String
  pub description : Option String
  pub value : SettingValue

abbrev pub with_settings : World → List Setting → World
with_settings w ss = record w { settings = ss }

-- a string is converted, any other value stays
unfoldable pub convert_value : SettingValue → SettingValue
unfolding convert_string_to_number_or_boolean_if_possible
convert_value (text s) = convert_string_to_number_or_boolean_if_possible s
convert_value (number s) = number s
convert_value (boolean b) = boolean b

module _ (p : Platform) where
  abbrev pub save_setting : Setting → Handler (Unit {0})
  save_setting s = write p λ w. Option.map (with_settings w) (p.settings.save s w.settings)

  unfoldable pub find_all : Filter → FindAllOptions → Handler (List Setting)
  find_all f o = query p λ w. p.settings.find f (paged o) w.settings

  unfoldable pub get_total : Filter → Handler ℕ
  get_total f = query p λ w. p.settings.count_documents f w.settings

  unfoldable pub find_one_by_id : String → Handler (Option Setting)
  find_one_by_id i = query p λ w. p.settings.find_by_id i w.settings

  -- `{ name }`
  abbrev pub named : String → Filter
  named name = where_all (("name", equals (text name)) ∷ [])

  unfoldable pub find_one_by_name : String → Handler (Option Setting)
  find_one_by_name name = query p λ w. p.settings.find_one (named name) w.settings

  unfoldable pub create : SettingCreate → Handler Setting
  unfolding convert_value
  create body = do
    i ← at_moment p p.new_object_id
    let setting : Setting = record {
      id = i;
      name = body.name;
      description = body.description;
      value = convert_value body.value;
    }
    save_setting setting
    pure setting

  unfoldable pub update_one_by_id : String → Option String → SettingValue → Handler (Unit {0})
  unfolding convert_value
  update_one_by_id i description value = do
    found ← query p (λ w. p.settings.find_by_id i w.settings)
    setting ← not_null found
    save_setting (record setting { description = description; value = convert_value value })

  unfoldable pub delete_one : Filter → Handler (Unit {0})
  delete_one f =
      write p λ w. some (record w { settings = p.settings.find_one_and_delete f w.settings })
