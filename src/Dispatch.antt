-- ===== src/Dispatch.antt =====
-- pkg/transformer/transformer.go: the registration of the methods and how a request comes to one.
pub mod Served
use charon.Prelude.{
  ◌⊎◌, inl, inr, Bool, true, false, Option, none, some, List, [], ◌∷◌, ◌++◌, Text, codes, Map,
  lookup, insert, text_Eq, if◌then◌else◌, not,
}
use charon.Rpc.{JsonRpcError, new_method_not_found_error}

-- `ETHProxy`, for the requests and the results of the JSON-RPC.
pub record Proxy (Q R : Type 0) : Type 0 where
  pub method : Text
  pub request : Q → JsonRpcError ⊎ R

pub record Transformer (Q R : Type 0) : Type 0 where
  pub debug_mode : Bool
  pub transformers : Map Text (Proxy Q R)

-- `Option`: `SetDebug` and `SetLogger`.
pub data Setting : Type 0 where
  set_debug : Bool → Setting
  set_logger : Setting

module _ {Q R : Type 0} where
  -- `Register`
  unfoldable pub register : Proxy Q R → Map Text (Proxy Q R) → Text ⊎ Map Text (Proxy Q R)
  register p m = elim (lookup p.method m) [
    | some _ ↦ inl (codes "method already exist: " ++ (p.method ++ codes " "))
    | none ↦ inr (insert p.method p m)
  ]

  unfoldable pub register_all :
      List (Proxy Q R) → Map Text (Proxy Q R) → Text ⊎ Map Text (Proxy Q R)
  register_all [] m = inr m
  register_all (p ∷ ps) m = elim (register p m) [ inl e ↦ inl e | inr m' ↦ register_all ps m' ]

  unfoldable pub apply_settings : List Setting → Transformer Q R → Transformer Q R
  apply_settings [] t = t
  apply_settings (Setting.set_debug debug ∷ settings) t =
      apply_settings settings (record t { debug_mode = debug })
  apply_settings (Setting.set_logger ∷ settings) t = apply_settings settings t

  -- `New`, where `false` is that the client is nil.
  unfoldable pub new_transformer : Bool → List (Proxy Q R) → List Setting → Text ⊎ Transformer Q R
  new_transformer false proxies settings = inl (codes "revoClient cannot be nil")
  new_transformer true proxies settings = elim (register_all proxies []) [
    | inl e ↦ inl e
    | inr m ↦ inr (apply_settings settings (record { debug_mode = false; transformers = m }))
  ]

  -- `getProxy`
  unfoldable pub get_proxy : Text → Transformer Q R → JsonRpcError ⊎ Proxy Q R
  get_proxy method t = elim (lookup method t.transformers) [
    | none ↦ inl (new_method_not_found_error method)
    | some p ↦ inr p
  ]

  -- `Transform`, of a request by its method.
  unfoldable pub transform : Text → Q → Transformer Q R → JsonRpcError ⊎ R
  transform method req t = elim (get_proxy method t) [ inl e ↦ inl e | inr p ↦ p.request req ]
