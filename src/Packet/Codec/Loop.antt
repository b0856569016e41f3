-- ===== src/Packet/Codec/Loop.antt =====
-- The loop that calls ReadMessage until it fails (readChan of framework/pkg/xagent/agent.go), over one
-- input: the messages that it hands on, in order, and how it ends.
use xgame.Common.{
  ℕ, zero, suc, ◌+◌, ◌≤◌, ◌<◌, ◌≡◌, ◌≢◌, inl, inr, Bool-cases, nat_eq, refl, ap, Option, none, some,
  List, [], ◌∷◌, ◌++◌, length, length-drop_le, length-take-drop, arith, Eq,
}
use mathlib.Core.Option
use Prim.Native.String.{String}
use xgame.Go.{Result, ok, err, panic, continue-ok, continue-keeps}
use xgame.Go.Errors.{Error}
use xgame.Pb.{MsgCommon, Proto}
use xgame.Packet.Registry.{Registry, on_unmarshal}
use xgame.Packet.Codec.{
  Reader, head_length, read_limit, read_short, parse_head, read_bodies, read_message,
}
use xgame.Packet.Codec.Framing.{reader}

pub data End : Type 0 where
  stopped : Error → End
  crashed : String → End

module _ {T M : Type 0} ⦃e : Eq T⦄ (p : Proto T M) where
  abbrev pub Messages : Type 0
  Messages = List (MsgCommon × M)

  -- One round, `common, msg, err := ReadMessage(conn); if err != nil { return }`, and the rest of the loop.
  after_read :
      (Reader → Option (Messages × End)) → Result (MsgCommon × M) × Reader → Option (Messages × End)
  after_read loop (ok x, r) = Option.map (λ out. (x ∷ out.0, out.1)) (loop r)
  after_read loop (err x, r) = some ([], stopped x)
  after_read loop (panic x, r) = some ([], crashed x)

  -- The loop on fuel: `none` when it runs out.
  unfoldable pub read_loop : ℕ → Registry T → Reader → Option (Messages × End)
  unfolding after_read
  read_loop zero reg r = none
  read_loop (suc n) reg r = after_read (read_loop n reg) (read_message p reg r)

  read_limit-le : (n : ℕ) (r : Reader) → length (read_limit n r).1.bytes ≤ length r.bytes
  unfolding read_limit read_short
  read_limit-le n r = ground (arith, length-drop_le n r.bytes)

  read_limit-exact :
      (n : ℕ) (r : Reader) (xs : List ℕ)
      → (read_limit n r).0 ≡ ok xs
      → length (read_limit n r).1.bytes + length xs ≡ length r.bytes
  unfolding read_limit read_short
  read_limit-exact n r xs h = ground (arith, length-take-drop n r.bytes)

  abbrev Below : ℕ → Reader → Type 0
  Below n r = length r.bytes ≤ n

  read_bodies-le :
      (reg : Registry T) (lens : ℕ × ℕ) (r : Reader)
      → length (read_bodies p reg lens r).1.bytes ≤ length r.bytes
  unfolding read_bodies
  read_bodies-le reg (a, b) r =
      let keeps : Reader → Type 0 = Below (length r.bytes) in
      continue-keeps keeps (read_limit a r).0 _ (read_limit a r).1 (read_limit-le a r) λ raw s h.
        continue-keeps keeps (p.unmarshal_common raw) _ s h λ c t h'.
          continue-keeps keeps (read_limit b t).0 _ (read_limit b t).1
            (omega (arith, read_limit-le b t))
            λ raw' u h''. continue-keeps keeps (on_unmarshal p reg c.route raw') _ u h'' λ m v k. k

  length-parse_head :
      (xs : List ℕ) (lens : ℕ × ℕ) → parse_head xs ≡ ok lens → length xs ≡ head_length
  unfolding parse_head
  length-parse_head xs lens h = ground arith

  header-shrinks :
      (reg : Registry T) (r : Reader) (x : MsgCommon × M) (y : Result (List ℕ)) (s : Reader)
      → read_limit head_length r ≡ (y, s)
      → (read_message p reg r).0 ≡ ok x
      → length (read_message p reg r).1.bytes + 4 ≤ length r.bytes
  unfolding read_message
  header-shrinks reg r x (ok header) s q h = elim (Bool-cases (nat_eq (length header) 0)) [
    | inl closed ↦ cc (rw (q, closed) at h)
    | inr more ↦
        let (lens, parsed, step, _) =
          continue-ok (parse_head header) (read_bodies p reg) s (rw (q, more) at h) in
        rw (q, more, step)
          (omega (
            arith,
            length-parse_head header lens parsed,
            read_bodies-le reg lens s,
            rw q at (read_limit-exact head_length r header (ap (λ z. z.0) q)),
          ))
  ]
  header-shrinks reg r x (err z) s q h = cc (rw q at h)
  header-shrinks reg r x (panic z) s q h = cc (rw q at h)

  -- A message that was read took the four bytes of its header at least.
  read_message-shrinks :
      (reg : Registry T) (r : Reader) (x : MsgCommon × M)
      → (read_message p reg r).0 ≡ ok x
      → length (read_message p reg r).1.bytes + 4 ≤ length r.bytes
  read_message-shrinks reg r x h =
      header-shrinks reg r x (read_limit head_length r).0 (read_limit head_length r).1 refl h

  map-eq-none :
      (g : Messages × End → Messages × End) (o : Option (Messages × End))
      → Option.map g o ≡ none
      → o ≡ none
  map-eq-none g none h = refl
  map-eq-none g (some x) h = cc

  after_read-some :
      (loop : Reader → Option (Messages × End)) (y : Result (MsgCommon × M)) (s : Reader)
      → ((x : MsgCommon × M) → y ≡ ok x → loop s ≢ none)
      → after_read loop (y, s) ≢ none
  unfolding after_read
  after_read-some loop (ok x) s rest h = rest x refl (map-eq-none _ (loop s) h)
  after_read-some loop (err x) s rest h = cc
  after_read-some loop (panic x) s rest h = cc

  -- The reading loop ends on every input: fuel above the number of bytes is enough.
  pub read_loop_total :
      (n : ℕ) (reg : Registry T) (r : Reader) → length r.bytes < n → read_loop n reg r ≢ none
  unfolding read_loop
  read_loop_total zero reg r h = absurd (omega arith)
  read_loop_total (suc n) reg r h =
      let (y, s) = read_message p reg r in
      after_read-some (read_loop n reg) y s
        λ x read. read_loop_total n reg s (omega (arith, read_message-shrinks reg r x read))

  -- A frame that ReadMessage reads back whatever follows it.
  abbrev pub ReadsAs : Registry T → MsgCommon × M → List ℕ → Type 0
  ReadsAs reg x bytes =
      (rest : List ℕ) (f : Option Error)
      → read_message p reg (reader (bytes ++ rest) f) ≡ (ok x, reader rest f)

  pub read_loop-step :
      (n : ℕ) (reg : Registry T) (x : MsgCommon × M) (bytes rest : List ℕ) (f : Option Error)
      → ReadsAs reg x bytes
      → read_loop (suc n) reg (reader (bytes ++ rest) f)
        ≡ Option.map (λ out. (x ∷ out.0, out.1)) (read_loop n reg (reader rest f))
  unfolding read_loop
  read_loop-step n reg x bytes rest f h = rw (h rest f, read_loop)

  pub read_loop-stop :
      (n : ℕ) (reg : Registry T) (r : Reader) (x : Error)
      → (read_message p reg r).0 ≡ err x
      → read_loop (suc n) reg r ≡ some ([], stopped x)
  unfolding read_loop
  read_loop-stop n reg r x h = rw (h, after_read)
