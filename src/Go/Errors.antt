-- ===== src/Go/Errors.antt =====
-- framework/error/error.go. An `error` is its text: the repository never compares two errors.
use xgame.Common.{String, ◌≡◌, refl, List, [], ◌∷◌}
use xgame.Go.Fmt.{Arg, text, sprintf}

pub record Error : Type 0 where
  pub message : String

-- Error
abbrev pub new : String → Error
new s = record { message = s }

-- Errorf
abbrev pub errorf : String → List Arg → Error
errorf format args = new (sprintf format args)

-- Wrap
abbrev pub wrap : Error → String → Error
wrap e s = errorf "err:%v, text:%s" (text e.message ∷ text s ∷ [])

-- Wrapf
abbrev pub wrapf : Error → String → List Arg → Error
wrapf e format args = wrap e (sprintf format args)

abbrev pub packet_size_exceed : Error
packet_size_exceed = new "codec: packet size exceed"

abbrev pub packet_connect_closed : Error
packet_connect_closed = new "client connection closed"

abbrev pub packet_invalid_header : Error
packet_invalid_header = new "invalid header"

abbrev pub cluster_rpc_client_is_stop : Error
cluster_rpc_client_is_stop = new "rpc client is stop"

wrap_text : (wrap (new "a") "b").message ≡ "err:a, text:b"
unfolding sprintf
wrap_text = refl
