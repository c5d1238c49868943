-- ===== src/Noise/Delivery.antt =====
-- src/noise.c: one direction of a session over a transport that keeps the order of what it carries.
use thalovant_embedded_c.Base.{
  ℕ, ◌+◌, ◌≤◌, true, List, [], ◌∷◌, ◌++◌, append_assoc, ◌≡◌, refl, sym, ap, subst, ◌∙◌, Bytes,
  length, ok, arith, ok_pair,
}
use thalovant_embedded_c.Noise.{Channel, Noise, noise_chunk_size}
use thalovant_embedded_c.Noise.Sealing.{unseal_iff_seal}
use thalovant_embedded_c.Noise.Transport.{marker, noise_encrypt, noise_decrypt}
use thalovant_embedded_c.Noise.Frames.{
  Carries, IsOpen, IsPaired, encrypt-Carries, decrypt-Carries, Carries-decrypt,
}

-- The two ends, the ciphertexts under way, and the frames that went in and came out.
pub record Link : Type 0 where
  pub sender : Noise
  pub receiver : Noise
  pub flight : List Bytes
  pub sent : List Bytes
  pub got : List Bytes

-- Either end calls at any time: the sender seals a frame, or the receiver opens the next ciphertext.
pub data Step : Link → Link → Type 0 where
  send_frame :
      {l : Link} (next : Noise) (frame c : Bytes) (room : ℕ)
      → noise_encrypt true l.sender frame room ≡ (next, ok c)
      → Step l
          (record l { sender = next; flight = l.flight ++ c ∷ []; sent = l.sent ++ frame ∷ [] })
  take_frame :
      {l : Link} (next : Noise) (frame c : Bytes) (rest : List Bytes) (room : ℕ)
      → l.flight ≡ c ∷ rest
      → noise_decrypt true l.receiver c room ≡ (next, ok frame)
      → Step l (record l { receiver = next; flight = rest; got = l.got ++ frame ∷ [] })

pub data Steps : Link → Link → Type 0 where
  done : (l : Link) → Steps l l
  more : {l m n : Link} → Steps l m → Step m n → Steps l n

unfoldable pub first_link : Noise → Noise → Link
first_link a b = record { sender = a; receiver = b; flight = []; sent = []; got = [] }

-- The ciphertexts carry the frames from one state of a direction to another.
abbrev Carried : Channel → List Bytes → List Bytes → Channel → Type 0
Carried at [] [] last = at ≡ last
Carried at [] (f ∷ fs) last = ⊥
Carried at (c ∷ cs) [] last = ⊥
Carried at (c ∷ cs) (f ∷ fs) last =
    (next : Channel) × (length f ≤ noise_chunk_size + 1)
    × Carries at next f c
    × Carried next cs fs last

Carried-snoc :
    (at : Channel) (cs fs : List Bytes) (last next : Channel) (c f : Bytes)
    → Carried at cs fs last
    → length f ≤ noise_chunk_size + 1
    → Carries last next f c
    → Carried at (cs ++ c ∷ []) (fs ++ f ∷ []) next
Carried-snoc at [] [] last next c f e short h =
    (next, short, subst (λ (d : Channel). Carries d next f c) (sym e) h, refl)
Carried-snoc at [] (g ∷ fs) last next c f e short h = absurd e
Carried-snoc at (d ∷ cs) [] last next c f e short h = absurd e
Carried-snoc at (d ∷ cs) (g ∷ fs) last next c f (mid, small, first, rest) short h =
    (mid, small, first, Carried-snoc mid cs fs last next c f rest short h)

ok_one : {A : Type 0} {a b : A} → ok a ≡ ok b → a ≡ b
ok_one h = cc

channel_path : (d e : Channel) → d.key ≡ e.key → d.nonce ≡ e.nonce → d.chunked ≡ e.chunked → d ≡ e
channel_path d e k n c = cc

-- A ciphertext carries one frame, to one state.
Carries-unique :
    (at next next' : Channel) (c f f' : Bytes)
    → length at.key ≡ 32
    → Carries at next f c
    → Carries at next' f' c
    → (f ≡ f') × (next ≡ next')
Carries-unique at next next' c f f' keyed (marked, made, key) (marked', made', key') =
    let one = (unseal_iff_seal at.key at.nonce [] f c next.nonce keyed).1 made in
    let two = (unseal_iff_seal at.key at.nonce [] f' c next'.nonce keyed).1 made' in
    let (nonces, frames) = ok_pair (sym one ∙ two) in
    let chunks : next.chunked ≡ next'.chunked =
      ok_one (sym marked ∙ ap (marker at.chunked) frames ∙ marked') in
    (frames, channel_path next next' (key ∙ sym key') nonces chunks)

-- What holds of a link whenever it is looked at.
abbrev IsInOrder : Link → List Bytes → Type 0
IsInOrder l pending =
    IsOpen l.sender
    × IsOpen l.receiver
    × (length l.receiver.receive.key ≡ 32)
    × Carried l.receiver.receive l.flight pending l.sender.send
    × (l.sent ≡ l.got ++ pending)

IsOpen-still :
    (s next : Noise) → IsOpen s → (next.ready ≡ s.ready) → (next.failed ≡ s.failed) → IsOpen next
IsOpen-still s next (ready, working) r f = (r ∙ ready, f ∙ working)

-- The next ciphertext under way opens to the next frame that is pending.
next_frame :
    (l : Link) (pending : List Bytes) (c : Bytes) (rest : List Bytes)
    → IsInOrder l pending
    → l.flight ≡ c ∷ rest
    → (frame : Bytes) × (later : List Bytes) × (mid : Channel) × (pending ≡ frame ∷ later)
      × (length frame ≤ noise_chunk_size + 1)
      × Carries l.receiver.receive mid frame c
      × Carried mid rest later l.sender.send
next_frame l pending c rest (a_open, b_open, keyed, carried, order) e =
    head pending (subst (λ cs. Carried l.receiver.receive cs pending l.sender.send) e carried)
  where
    head :
        (fs : List Bytes)
        → Carried l.receiver.receive (c ∷ rest) fs l.sender.send
        → (frame : Bytes) × (later : List Bytes) × (mid : Channel) × (fs ≡ frame ∷ later)
          × (length frame ≤ noise_chunk_size + 1)
          × Carries l.receiver.receive mid frame c
          × Carried mid rest later l.sender.send
    head [] h = absurd h
    head (f ∷ fs) (mid, short, first, others) = (f, fs, mid, refl, short, first, others)

Step-IsInOrder :
    (l m : Link) (pending : List Bytes)
    → Step l m
    → IsInOrder l pending
    → (later : List Bytes) × IsInOrder m later
Step-IsInOrder l m pending (send_frame next frame c room h)
      (a_open, b_open, keyed, carried, order) =
    let (session, short, moved, carries) = encrypt-Carries l.sender frame room next c h in
    let after =
      IsOpen-still l.sender next a_open (ap (λ (n : Noise). n.ready) moved)
        (ap (λ (n : Noise). n.failed) moved) in
    let longer =
      Carried-snoc l.receiver.receive l.flight pending l.sender.send next.send c frame carried short
        carries in
    let order' : l.sent ++ frame ∷ [] ≡ l.got ++ (pending ++ frame ∷ []) =
      ap (λ fs. fs ++ frame ∷ []) order ∙ append_assoc l.got pending (frame ∷ []) in
    (pending ++ frame ∷ [], (after, b_open, keyed, longer, order'))
Step-IsInOrder l m pending (take_frame next frame c rest room e h)
      (a_open, b_open, keyed, carried, order) =
    let (f, later, mid, split_off, short, first, others) =
      next_frame l pending c rest (a_open, b_open, keyed, carried, order) e in
    let (moved, carries) = decrypt-Carries l.receiver frame c room keyed next h in
    let (same, to) =
      Carries-unique l.receiver.receive mid next.receive c f frame keyed first carries in
    let after =
      IsOpen-still l.receiver next b_open (ap (λ (n : Noise). n.ready) moved)
        (ap (λ (n : Noise). n.failed) moved) in
    let keyed' : length next.receive.key ≡ 32 = subst (λ k. length k ≡ 32) (sym carries.2) keyed in
    let order' : l.sent ≡ (l.got ++ frame ∷ []) ++ later =
      order
      ∙ ap (λ fs. l.got ++ fs) (split_off ∙ ap (λ g. g ∷ later) same)
      ∙ sym (append_assoc l.got (frame ∷ []) later) in
    let others' = subst (λ (d : Channel). Carried d rest later l.sender.send) to others in
    (later, (a_open, after, keyed', others', order'))

Steps-IsInOrder :
    (l m : Link) (pending : List Bytes)
    → Steps l m
    → IsInOrder l pending
    → (later : List Bytes) × IsInOrder m later
Steps-IsInOrder l m pending (done l') h = (pending, h)
Steps-IsInOrder l m pending (more {m = k} steps step) h =
    let (later, h') = Steps-IsInOrder l k pending steps h in Step-IsInOrder k m later step h'

first_link-IsInOrder : (a b : Noise) → IsPaired a b → IsInOrder (first_link a b) []
unfolding first_link
first_link-IsInOrder a b (a_open, b_open, same, keyed) =
    (a_open, b_open, subst (λ (d : Channel). length d.key ≡ 32) same keyed, sym same, refl)

-- Of two open sessions, the first of which sends under the state that the second receives under, over
-- a transport that keeps the order: after any sends and receptions the frames that came out are the
-- first of those that went in, in their order, each once.
pub delivered_in_order :
    (a b : Noise) (l : Link)
    → IsPaired a b
    → Steps (first_link a b) l
    → (pending : List Bytes) × (l.sent ≡ l.got ++ pending)
delivered_in_order a b l paired steps =
    let (pending, (x, y, z, w, order)) =
      Steps-IsInOrder (first_link a b) l [] steps (first_link-IsInOrder a b paired) in
    (pending, order)

-- And the next ciphertext under way is never refused: with room for a frame of 65001 bytes
-- `noise_decrypt` gives the frame that was sent next after those that came out.
pub delivery_succeeds :
    (a b : Noise) (l : Link) (c : Bytes) (rest : List Bytes) (room : ℕ)
    → IsPaired a b
    → Steps (first_link a b) l
    → l.flight ≡ c ∷ rest
    → noise_chunk_size + 1 ≤ room
    → (next : Noise) × (frame : Bytes) × (later : List Bytes) × (noise_decrypt true l.receiver c
          room
        ≡ (next, ok frame))
      × (l.sent ≡ (l.got ++ frame ∷ []) ++ later)
delivery_succeeds a b l c rest room paired steps e fits =
    let (pending, ordered) =
      Steps-IsInOrder (first_link a b) l [] steps (first_link-IsInOrder a b paired) in
    let (a_open, b_open, keyed, carried, order) = ordered in
    let (f, later, mid, split_off, short, first, others) = next_frame l pending c rest ordered e in
    (
      record l.receiver { receive = mid },
      f,
      later,
      Carries-decrypt l.receiver f c room keyed mid b_open short (omega arith) first,
      order ∙ ap (λ fs. l.got ++ fs) split_off ∙ sym (append_assoc l.got (f ∷ []) later),
    )
