-- ===== src/Subscription/Generate.antt =====
-- The content of a subscription in its format: `generate_subscription` of
-- crates/pp-subscription/src/generator.rs, and formats/json.rs and formats/v2rayng.rs.
use multi_proxy_panel.Prelude.{String, List, [], ◌∷◌, map, Option}
use multi_proxy_panel.Db.{Result, ok}
use multi_proxy_panel.Json.{Value, text, number, json_array, json_object}
use multi_proxy_panel.Protocol.{protocol_name}
use multi_proxy_panel.Subscription.{
  ProxyNode, Crates, SubscriptionFormat, base64, json, clash, sing_box_format, v2ray_ng,
}
use multi_proxy_panel.Subscription.Links as Links
use multi_proxy_panel.Subscription.SingBox as SingBox
use multi_proxy_panel.Subscription.Clash.Template as Template

unfoldable pub described : ProxyNode → Value
unfolding protocol_name
described node = json_object (
    ("type", text (protocol_name node.protocol))
    ∷ ("tag", text node.name)
    ∷ ("server", text node.server)
    ∷ ("server_port", number node.port)
    ∷ ("settings", node.settings)
    ∷ [])

module _ (k : Crates) where
  unfoldable pub generate_json : List ProxyNode → Result String
  unfolding described
  generate_json nodes = ok (k.to_json_pretty (json_array (map described nodes)))

  unfoldable pub generate_subscription :
      SubscriptionFormat → List ProxyNode → Option String → Result String
  unfolding generate_json Links.generate SingBox.generate Template.generate
  generate_subscription base64 nodes base = Links.generate k nodes
  generate_subscription json nodes base = generate_json nodes
  generate_subscription clash nodes base = Template.generate k nodes base
  generate_subscription sing_box_format nodes base = SingBox.generate k nodes base
  generate_subscription v2ray_ng nodes base = Links.generate k nodes
