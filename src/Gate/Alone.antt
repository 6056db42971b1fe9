-- ===== src/Gate/Alone.antt =====
-- What each of several connections gets out of a sequence of socket messages, and what the bytes of
-- one connection are due alone (service_gate.c).
use myprogram.Prelude.{
  ℕ, zero, suc, ◌+◌, ◌*◌, ◌≡◌, refl, inl, inr, List, [], ◌∷◌, ◌++◌, ◌==◌, if◌then◌else◌, Run, ok,
  fault, out_of_fuel, length, Bool-cases, ◌>>=◌,
}
use myprogram.DataBuffer.{DataBuffer, MessagePool}
use myprogram.Gate.{Gate, Connection, Action}
use myprogram.Gate.Socket.{data_message, dispatch_socket_message}
use myprogram.Gate.Stream.{Drained, after, drain, left_after, read_header}
use myprogram.Gate.Delivery.{with_buffer}

-- Bytes, and the socket that they come from.
abbrev pub Arrivals : Type 0
Arrivals = List (ℕ × List ℕ)

abbrev pub volume : Arrivals → ℕ
volume [] = 0
volume ((id, bs) ∷ rest) = length bs + volume rest

-- The messages in turn; with each socket, what the gate did on its message.
abbrev pub serve_all : Gate → Arrivals → Run (Gate × List (ℕ × List Action))
serve_all g [] = ok (g, [])
serve_all g ((id, bs) ∷ rest) = do
  (g', acts) ← dispatch_socket_message g (data_message id bs)
  (g'', log) ← serve_all g' rest
  ok (g'', (id, acts) ∷ log)

abbrev pub done_for : ℕ → List (ℕ × List Action) → List Action
done_for id [] = []
done_for id ((j, acts) ∷ log) = if j == id then acts ++ done_for id log else done_for id log

-- What comes after a piece.
abbrev pub before : (ℕ → List ℕ → Run Drained) → Drained → Run Drained
before next (h, p, sent) = after sent (next h p)

-- The bytes of one socket alone, each piece drained behind what the pieces before have left.
abbrev pub alone : Gate → Connection → ℕ → ℕ → List ℕ → Arrivals → Run Drained
alone g c id h p [] = ok (h, p, [])
alone g c id h p ((j, bs) ∷ rest) =
    let mine =
      drain (2 * length (p ++ bs) + 2) g c id h (p ++ bs)
      >>= before (λ h' p'. alone g c id h' p' rest) in
    let others = alone g c id h p rest in if j == id then mine else others

-- The buffers and the pool do not matter to what is sent.
pub drain-other :
    (k : ℕ) (g : Gate) (u : ℕ) (e c : Connection) (db b : DataBuffer) (mp : MessagePool) (id h : ℕ)
    (bs : List ℕ)
    → drain k (with_buffer g u e db mp) (record c { buffer = b }) id h bs ≡ drain k g c id h bs
unfolding drain
drain-other zero g u e c db b mp id h bs = refl
drain-other (suc k) g u e c db b mp id h bs =
    let (size, h1, bs1) = read_header h bs in
    rw
      (
        drain-other k g u e c db b mp id h1 bs1,
        drain-other k g u e c db b mp id 0 (left_after g c bs1 size),
      )
      refl

before-same :
    (f f' : ℕ → List ℕ → Run Drained) (r : Run Drained)
    → ((h : ℕ) (p : List ℕ) → f h p ≡ f' h p)
    → (r >>= before f) ≡ (r >>= before f')
before-same f f' (ok (h, p, sent)) same = rw (same h p) refl
before-same f f' fault same = refl
before-same f f' out_of_fuel same = refl

pub alone-other :
    (g : Gate) (u : ℕ) (e c : Connection) (db b : DataBuffer) (mp : MessagePool) (id h : ℕ)
    (p : List ℕ) (rest : Arrivals)
    → alone (with_buffer g u e db mp) (record c { buffer = b }) id h p rest ≡ alone g c id h p rest
alone-other g u e c db b mp id h p [] = refl
alone-other g u e c db b mp id h p ((j, bs) ∷ rest) = elim (Bool-cases (j == id)) [
  | inl mine ↦
      rw (mine, drain-other (2 * length (p ++ bs) + 2) g u e c db b mp id h (p ++ bs))
        (before-same
          (λ h' p'. alone (with_buffer g u e db mp) (record c { buffer = b }) id h' p' rest)
          (λ h' p'. alone g c id h' p' rest) _ (λ h' p'. alone-other g u e c db b mp id h' p' rest))
  | inr other ↦ rw other (alone-other g u e c db b mp id h p rest)
]
