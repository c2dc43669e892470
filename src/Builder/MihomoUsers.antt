-- ===== src/Builder/MihomoUsers.antt =====
-- The users of mihomo listeners: crates/pp-config/src/mihomo.rs.
pub mod Named
use Prim.Native.String.{◌++◌ as ◌<>◌}
use multi_proxy_panel.Prelude.{
  ℕ, suc, String, str_eq, Bool, true, false, not, ◌&&◌, List, [], ◌∷◌, Option, none, some,
  if◌then◌else◌, unwrap_or,
}
use multi_proxy_panel.Prelude.Text.{comma_list, is_empty, rsplit_once, to_string}
use multi_proxy_panel.Db.{PanelError, validation}
use multi_proxy_panel.Protocol.{ProtocolType, vless_reality, vless_xhttp, hysteria2, anytls}
use multi_proxy_panel.Json.{
  Value, boolean, number, text, array, object, Items, no_items, item, Fields, no_fields, get,
  as_array, get_str, u64_or, json_array, json_object, put, put_field, to_list,
}
use multi_proxy_panel.Settings.{or_else, non_empty}
use multi_proxy_panel.Builder.{
  InboundConfig, Built, built, refused, and_build, required, texts_value, map_values,
  collect_inbounds,
}

unfoldable pub setting_str : List String → Value → Option String
unfolding get_str
setting_str [] settings = none
setting_str (k ∷ ks) settings = or_else (get_str k settings) (setting_str ks settings)

abbrev pub setting_or : List String → String → Value → String
setting_or keys default settings = unwrap_or (setting_str keys settings) default

-- A user of a vless listener; no flow is given unless the listener takes one.
unfoldable pub build_user : Bool → String → String → String → String → Value
unfolding put is_empty
build_user with_flow default_flow uuid name flow =
    let user = json_object (("username", text name) ∷ ("uuid", text uuid) ∷ []) in
    let effective_flow = if is_empty flow then default_flow else flow in
    if with_flow && not (is_empty effective_flow)
    then put "flow" (text effective_flow) user
    else user

abbrev pub client_user : Bool → String → Value → Value
client_user with_flow default_flow c =
    build_user with_flow default_flow (setting_or ("id" ∷ "uuid" ∷ []) "" c)
      (setting_or ("email" ∷ "name" ∷ []) "" c) (setting_or ("flow" ∷ []) "" c)

abbrev users_of : Bool → String → String → Option Items → Value
users_of with_flow default_flow uuid (some clients) =
    map_values (client_user with_flow default_flow) clients
users_of with_flow default_flow uuid none =
    if is_empty uuid
    then json_array []
    else json_array (build_user with_flow default_flow uuid "" "" ∷ [])

unfoldable pub vless_users : Value → Bool → Value
unfolding setting_str build_user
vless_users settings with_flow =
    users_of with_flow (if with_flow then setting_or ("flow" ∷ []) "" settings else "")
      (setting_or ("uuid" ∷ []) "" settings) (as_array (get "clients" settings))

unfoldable pub count_fields : Fields → ℕ
count_fields no_fields = 0
count_fields (Fields.field k v fs) = suc (count_fields fs)

unfoldable pub user_key : String → Fields → String
unfolding is_empty count_fields to_string
user_key name map = if is_empty name then "user" <> to_string (suc (count_fields map)) else name

-- One turn of the loop over the clients.
unfoldable pub insert_user : Value → Fields → Fields
unfolding setting_str is_empty user_key put_field
insert_user c map =
    let password = setting_or ("password" ∷ []) "" c in
    if is_empty password
    then map
    else put_field (user_key (setting_or ("name" ∷ "email" ∷ []) "" c) map) (text password) map

unfoldable pub insert_users : Items → Fields → Fields
unfolding insert_user
insert_users no_items map = map
insert_users (item c cs) map = insert_users cs (insert_user c map)

abbrev passwords_of : Option Items → String → Fields
passwords_of (some clients) password = insert_users clients no_fields
passwords_of none password =
    if is_empty password then no_fields else put_field "default" (text password) no_fields

unfoldable pub password_users : Value → Value
unfolding insert_users setting_str
password_users settings =
    object
      (passwords_of (as_array (get "clients" settings)) (setting_or ("password" ∷ []) "" settings))
