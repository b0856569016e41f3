-- ===== src/Xagent/Agent/Client/Frames.antt =====
-- Messages with their frames, and what a client reads of the frames.
use mathlib.Core.Option as Option
use xgame.Common.{ℕ, suc, ◌≡◌, ◌≢◌, refl, ap, ◌∙◌, none, some, List, [], ◌∷◌, ◌++◌, length, Eq}
use xgame.Go.{ok}
use xgame.Go.Errors.{packet_connect_closed}
use xgame.Pb.{MsgCommon, Proto}
use xgame.Packet.Registry.{Registry}
use xgame.Packet.Registry.Consistency.{IsConsistent}
use xgame.Packet.Codec.{pack_message}
use xgame.Packet.Codec.Framing.{reader}
use xgame.Packet.Codec.RoundTrip.{IsLossless, read-pack}
use xgame.Packet.Codec.Loop.{Messages, read_loop, read_loop-step, stopped}
use xgame.Packet.Codec.Stream.{Readable, read_loop-end}

-- The bytes of frames that are written one after the other.
unfoldable pub concat : List (List ℕ) → List ℕ
concat [] = []
concat (f ∷ fs) = f ++ concat fs

module _ {T M : Type 0} ⦃e : Eq T⦄ (p : Proto T M) where
  -- Messages that were packed in order: as they were given, as they are in their frames, and the frames. What cannot be
  -- packed has no frame.
  pub data Framed : List (MsgCommon × M) → Messages p → List (List ℕ) → Type 0 where
    nothing : Framed [] [] []
    frame :
        {t : List (MsgCommon × M)} {s : Messages p} {f : List (List ℕ)} (r : Registry T)
        (c c' : MsgCommon) (m : M) (bytes : List ℕ)
        → IsConsistent p r
        → (pack_message p c m r).0 ≡ ok (c', bytes)
        → Framed t s f
        → Framed ((c, m) ∷ t) ((c', m) ∷ s) (bytes ∷ f)
    dropped :
        {t : List (MsgCommon × M)} {s : Messages p} {f : List (List ℕ)} (r : Registry T)
        (c : MsgCommon) (m : M)
        → ((out : MsgCommon × List ℕ) → (pack_message p c m r).0 ≢ ok out)
        → Framed t s f
        → Framed ((c, m) ∷ t) s f

  pub framed_append :
      {t : List (MsgCommon × M)} {s : Messages p} {f : List (List ℕ)} {t' : List (MsgCommon × M)}
      {s' : Messages p} {f' : List (List ℕ)}
      → Framed t s f
      → Framed t' s' f'
      → Framed (t ++ t') (s ++ s') (f ++ f')
  framed_append nothing k = k
  framed_append (frame r c c' m bytes consistent packed rest) k =
      frame r c c' m bytes consistent packed (framed_append rest k)
  framed_append (dropped r c m failed rest) k = dropped r c m failed (framed_append rest k)

  pub dropped_last :
      {t : List (MsgCommon × M)} {s : Messages p} {f : List (List ℕ)} (r : Registry T)
      (c : MsgCommon) (m : M)
      → ((out : MsgCommon × List ℕ) → (pack_message p c m r).0 ≢ ok out)
      → Framed t s f
      → Framed (t ++ (c, m) ∷ []) s f
  dropped_last r c m failed nothing = dropped r c m failed nothing
  dropped_last r c m failed (frame r' d d' m' bytes consistent packed rest) =
      frame r' d d' m' bytes consistent packed (dropped_last r c m failed rest)
  dropped_last r c m failed (dropped r' d m' failed' rest) =
      dropped r' d m' failed' (dropped_last r c m failed rest)

  pub framed_prefix :
      {t : List (MsgCommon × M)} {s : Messages p} {fs : List (List ℕ)}
      → Framed t s fs
      → (f g : List (List ℕ)) → fs ≡ f ++ g
      → (t1 : List (MsgCommon × M)) × (t2 : List (MsgCommon × M)) × (s1 : Messages p) × (t
          ≡ t1 ++ t2)
        × Framed t1 s1 f
  framed_prefix {t} k [] g q = ([], t, [], refl, nothing)
  framed_prefix nothing (x ∷ f) g q = cc
  framed_prefix (frame {t} {s} {f = fs} r c c' m bytes consistent packed rest) (x ∷ f) g q =
      let (t1, t2, s1, split, before) = framed_prefix {t = t} {s = s} {fs = fs} rest f g (cc q) in
      (
        (c, m) ∷ t1,
        t2,
        (c', m) ∷ s1,
        ap (λ y. (c, m) ∷ y) split,
        frame r c c' m x consistent (packed ∙ ap (λ y. ok (c', y)) (cc q)) before,
      )
  framed_prefix (dropped {t} {s} {f = fs} r c m failed rest) (x ∷ f) g q =
      let (t1, t2, s1, split, before) = framed_prefix {t = t} {s = s} {fs = fs} rest (x ∷ f) g q in
      ((c, m) ∷ t1, t2, s1, ap (λ y. (c, m) ∷ y) split, dropped r c m failed before)

  pub reads :
      {t : List (MsgCommon × M)} {s : Messages p} {f : List (List ℕ)} (lossless : IsLossless p)
      (client : Registry T)
      → Framed t s f
      → Readable p client s
      → read_loop p (suc (length s)) client (reader (concat f) none)
        ≡ some (s, stopped packet_connect_closed)
  unfolding concat
  reads lossless client nothing seen = read_loop-end p client
  reads lossless client (frame {s} {f} r c c' m bytes consistent packed rest) seen =
      read_loop-step p (suc (length s)) client (c', m) bytes (concat f) none
        (λ after x.
          read-pack p lossless r client c c' m bytes after x consistent packed seen.0.0 seen.0.1)
      ∙ ap (Option.map (λ out. ((c', m) ∷ out.0, out.1))) (reads lossless client rest seen.1)
  reads lossless client (dropped r c m failed rest) seen = reads lossless client rest seen
