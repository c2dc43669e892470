-- ===== src/Builder.antt =====
-- What the builders of core configs share: crates/pp-config/src/builder.rs, and the results of a
-- builder with the error's message, which the builders look into.
pub mod Loop
pub mod SingBoxTls
pub mod SingBox
pub mod CoreVersion
pub mod MihomoUsers
pub mod Mihomo
pub mod Hop
mod Tests
use Prim.Native.String.{◌++◌ as ◌<>◌}
use multi_proxy_panel.Prelude.{
  ℕ, String, Bool, true, false, ◌&&◌, List, [], ◌∷◌, map, Option, none, some, if◌then◌else◌, not,
}
use multi_proxy_panel.Prelude.Text.{contains, is_empty}
use multi_proxy_panel.Db.{PanelError}
use multi_proxy_panel.Protocol.{ProtocolType}
use multi_proxy_panel.Json.{Value, text, Items, to_list, json_array}

pub record InboundConfig : Type 0 where
  pub tag : String
  pub protocol : ProtocolType
  pub listen : String
  pub port : ℕ
  pub settings : Value
  pub tls : Option Value
  pub core_version : Option String

-- `PanelResult`, with the message.
pub data Built {ℓ} (A : Type ℓ) : Type ℓ where
  built : A → Built A
  refused : PanelError → String → Built A

abbrev pub is_built : {A : Type 0} → Built A → Bool
is_built (built a) = true
is_built (refused e m) = false

-- `?`
abbrev pub and_build : {A B : Type 0} → Built A → (A → Built B) → Built B
and_build (built a) f = f a
and_build (refused e m) f = refused e m

-- `.ok_or_else(|| …)`
abbrev pub required : {A : Type 0} → Option A → PanelError → String → Built A
required (some a) e m = built a
required none e m = refused e m

-- `Vec<String>` as JSON.
abbrev pub texts_value : List String → Value
texts_value ss = json_array (map text ss)

-- `iter().map(f).collect()`
abbrev pub map_values : (Value → Value) → Items → Value
map_values f xs = json_array (map f (to_list xs))

abbrev keep_inbound : Built (List Value) → Value → Built (List Value)
keep_inbound (built vs) v = built (v ∷ vs)
keep_inbound (refused e m) v = refused e m

-- One turn of the loop of `build_full_config`: the inbounds behind it are asked for only where the
-- loop goes on.
abbrev pub collect_next : Bool → Built Value → Built (List Value) → Built (List Value)
collect_next skippable (built v) rest = keep_inbound rest v
collect_next skippable (refused e m) rest =
    if skippable && contains m "TLS" then rest else refused e m

module _ (build : InboundConfig → Built Value) (skippable : ProtocolType → Bool) where
  -- The loop of `build_full_config`: an inbound that lacks TLS is left out, any other error ends it.
  unfoldable pub collect_inbounds : List InboundConfig → Built (List Value)
  collect_inbounds [] = built []
  collect_inbounds (i ∷ is) = collect_next (skippable i.protocol) (build i) (collect_inbounds is)
