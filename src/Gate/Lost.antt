-- ===== src/Gate/Lost.antt =====
-- The answer of one gate node to a login that another has relayed.
use mathlib.Core.List.{append-nil}
use xgame.Common.{ℕ, ℕ_eq, ◌≡◌, ◌≢◌, sym, ap, ◌∙◌, none, some, String, List, [], Eq}
use xgame.Common.Map.{get-empty}
use xgame.Go.{ok}
use xgame.Pb.{MsgCommon, Proto}
use xgame.Packet.Registry.{empty_registry, type_hash, message_type}
use xgame.Packet.Registry.Outcomes.{register_other}
use xgame.Packet.Registry.Consistency.{IsConsistent, empty-IsConsistent}
use xgame.Packet.Codec.{read_message}
use xgame.Packet.Codec.Framing.{reader}
use xgame.Packet.Codec.RoundTrip.{IsLossless, Fits}
use xgame.Packet.Codec.Unknown.{read-pack-unknown}
use xgame.Application.{Application, Component, find}
use xgame.Cluster.{Site, Cluster}
use xgame.Cluster.Handlers.{Receiver, set_default_handler, process, received}
use xgame.Cluster.Sending.{Taken}
use xgame.Cluster.Rpc.{routed, Sent, answer_common, resp-ok}
use xgame.Gate.{Climsg, new_gate, login_answer, on_creq_login, set_up}
use xgame.Gate.Login.{login_type, IsNew, set_up-new}

module _ {T M H L : Type 0} ⦃e : Eq T⦄ (p : Proto T M) where
  -- What was sent is not posted on a node that has no type under its route.
  lost-Sent :
      {site : Site} {node_id : String} {c : MsgCommon} {m : M} {s s' : Cluster T H}
      (lossless : IsLossless p) (b : Receiver T M L) (v : Sent p site node_id c m s s')
      → IsConsistent p s.registry
      → Fits p (routed p c m) m
      → message_type b.registry (type_hash p (p.type_of m)) ≡ none
      → process p v.bytes b ≡ (ok tt, b)
  unfolding process received
  lost-Sent {c} {m} {s} lossless b v k fits unknown =
      ap (λ x. received p x.0 b)
        (ap (λ xs. read_message p b.registry (reader xs none)) (sym (append-nil v.bytes))
          ∙ read-pack-unknown p lossless s.registry b.registry c (routed p c m) m v.bytes [] none k
              v.packed fits unknown)

module _ {T M : Type 0} ⦃e : Eq T⦄ (p : Proto T M) (pb : Climsg M) where
  pub new_gate-IsNew : {L : Type 0} → IsNew {L = L} p pb new_gate
  new_gate-IsNew = record {
    no_route = get-empty {V = String} (type_hash p (login_type p pb));
    consistent = empty-IsConsistent p;
    free = λ u h. cc (get-empty {V = T} (type_hash p (login_type p pb)));
  }

module _ {T M H L : Type 0} ⦃e : Eq T⦄ (p : Proto T M) (pb : Climsg M) where
  -- An answer that is lost. A gate node that gate.Run has set up, in a process that had registered no message, does
  -- not know the type of SRespLogin. When onCReqLogin of another gate node logs no error for a login that this node has
  -- relayed to it, NATS has taken the SRespLogin under the subject of this node, with the type of the member
  -- that has its id, and receive here posts nothing for
  -- it: it refuses the message and keeps its state, so the client gets no answer. This is for a protobuf that undoes
  -- its marshalling, a consistent registry, parts that fit their frames, and names of CReqLogin and SRespLogin with
  -- different checksums.
  pub first_answer_lost :
      {C : Type 0} (lossless : IsLossless p) (app : Application C) (agents : Component C) (f d : L)
      (there : Site) (c : MsgCommon) (req : M) (s : Cluster T H)
      → find app "agents_manager" ≡ some agents
      → IsConsistent p s.registry
      → let resp = pb.sresp_login (login_answer (pb.account req)) in
        let gate = set_default_handler d (set_up p pb app f new_gate).1.receiver in
        type_hash p (p.type_of resp) ≢ type_hash p (login_type p pb)
        → (on_creq_login p pb there c req s).0 ≡ ok tt
        → Fits p (routed p (answer_common c) resp) resp
        → (bytes : List ℕ) × Taken there c.source_id bytes s.published
            (on_creq_login p pb there c req s).1.published
          × (process p bytes gate ≡ (ok tt, gate))
  unfolding on_creq_login
  first_answer_lost {C} lossless app agents f d there c req s found k other answered fits =
      let resp = pb.sresp_login (login_answer (pb.account req)) in
      let id = type_hash p (p.type_of resp) in
      let (g', done, _, same) = set_up-new p pb app agents f new_gate found (new_gate-IsNew p pb) in
      let v = resp-ok p there c resp s k answered in
      let fresh : message_type (set_up p pb app f new_gate).1.receiver.registry id ≡ none =
        ap (λ x. message_type x.1.receiver.registry id) done
        ∙ ap (λ (b : Receiver T M L). message_type b.registry id) same
        ∙ register_other p pb.creq_login empty_registry id other
        ∙ get-empty {V = T} id in
      (
        v.bytes,
        v.taken,
        lost-Sent p lossless (set_default_handler d (set_up p pb app f new_gate).1.receiver) v k
            fits fresh,
      )
