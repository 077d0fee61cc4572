-- ===== src/Options.antt =====
-- options.go: the options of a Publish or Subscribe call.
pub mod Laws
use courier_go.Base.{ℕ, Bool, false, List, [], ◌∷◌, Option, none, some}

-- QOSLevel is a uint8; `qos` and `retained` are the two types that implement Option.
pub data CallOption : Type 0 where
  qos : ℕ → CallOption
  retained : Bool → CallOption

pub record CallOptions : Type 0 where
  pub qos : ℕ
  pub retained : Bool

abbrev pub no_options : CallOptions
no_options = record { qos = 0; retained = false }

-- the two `apply` methods
abbrev pub apply : CallOption → CallOptions → CallOptions
apply (CallOption.qos q) o = record o { qos = q }
apply (CallOption.retained r) o = record o { retained = r }

unfoldable pub apply_all : CallOptions → List CallOption → CallOptions
apply_all o [] = o
apply_all o (opt ∷ opts) = apply_all (apply opt o) opts

-- composeOptions
unfoldable pub compose_options : List CallOption → CallOptions
unfolding apply_all
compose_options opts = apply_all no_options opts
