-- ===== src/Tests/Dispatch.antt =====
-- The methods of a transformer at concrete inputs.
use charon.Prelude.{
  ◌≡◌, ◌↔◌, refl, inl, inr, true, List, [], ◌∷◌, Text, codes, text_eq, text_Eq, lookup, insert,
}
use charon.Dispatch.{
  Proxy, Transformer, Setting, register, register_all, apply_settings, new_transformer, transform,
}
use charon.Dispatch.Served.{named, served, IsDistinct, new_transformer_iff, transform-served}

abbrev answering : Text → Text → Proxy Text Text
answering method answer = record { method = method; request = λ req. inr answer }

abbrev proxies : List (Proxy Text Text)
proxies =
    answering (codes "eth_mining") (codes "false")
    ∷ answering (codes "eth_hashrate") (codes "0x0")
    ∷ []

abbrev settings : List Setting
settings = Setting.set_debug true ∷ Setting.set_logger ∷ []

abbrev transformer : Transformer Text Text
transformer = record {
  debug_mode = true;
  transformers =
      (codes "eth_mining", answering (codes "eth_mining") (codes "false"))
      ∷ (codes "eth_hashrate", answering (codes "eth_hashrate") (codes "0x0"))
      ∷ [];
}

new_transformer_iff_example :
    ((t : Transformer Text Text) × (new_transformer true proxies settings ≡ inr t))
    ↔ IsDistinct proxies
new_transformer_iff_example = new_transformer_iff proxies settings

transform-served_example :
    transform (codes "eth_hashrate") [] transformer
    ≡ served (codes "eth_hashrate") [] (named (codes "eth_hashrate") proxies)
unfolding new_transformer register_all register apply_settings lookup insert text_eq
transform-served_example =
    transform-served proxies settings transformer (codes "eth_hashrate") [] refl

-- A second proxy of a method is refused.
twice :
    new_transformer true
      (answering (codes "eth_mining") (codes "false")
        ∷ answering (codes "eth_mining") (codes "true")
        ∷ [])
      []
    ≡ inl (codes "method already exist: eth_mining ")
unfolding new_transformer register_all register lookup insert text_eq
twice = refl
