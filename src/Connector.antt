-- ===== src/Connector.antt =====
-- framework/pkg/connector: the options of the connectors and what is made of them. Listeners and sockets are
-- calls of net and of gorilla/websocket.
pub mod Websocket
pub mod Tcp
use xgame.Common.{
  Bool, ℕ, ◌&&◌, not, Option, none, some, String, List, [], ◌∷◌, string_eq, ◌==◌, ltb,
  if◌then◌else◌,
}
use xgame.Go.{Result, ok, panic}

pub record Options : Type 0 where
  pub address : String
  pub cert_file : String
  pub key_file : String
  pub chan_size : ℕ

-- WithCert
abbrev pub with_cert : String → String → Options → Options
with_cert cert_file key_file o =
    if not (cert_file == "") && not (key_file == "")
    then record o { cert_file = cert_file; key_file = key_file }
    else o

-- WithChanSize
abbrev pub with_chan_size : ℕ → Options → Options
with_chan_size size o = if ltb 1 size then record o { chan_size = size } else o

apply_all : List (Options → Options) → Options → Options
apply_all [] o = o
apply_all (opt ∷ opts) o = apply_all opts (opt o)

-- NewTCP and NewWS, of which the options are alike; `none` is nil.
unfoldable pub new_connector : String → List (Options → Options) → Option Options
unfolding apply_all
new_connector address opts =
    if address == ""
    then none
    else some (
        apply_all opts
          (record { address = address; cert_file = ""; key_file = ""; chan_size = 256 }))

-- Connector: the function for new connections, and whether it runs.
pub record Connector (F : Type 0) : Type 0 where
  pub on_connect_func : Option F
  pub running : Bool

module _ {F : Type 0} where
  -- OnConnect; `none` is nil.
  abbrev pub on_connect : Option F → Connector F → Connector F
  on_connect none c = c
  on_connect (some f) c = record c { on_connect_func = some f }

  -- Start: the function that its loop calls for each connection
  abbrev pub start : Connector F → Result F
  start c = elim c.on_connect_func [ none ↦ panic "onConnectFunc is nil." | some f ↦ ok f ]
