-- ===== src/Noise/Nonces.antt =====
-- src/noise.c: the counters that a session seals frames under, over any calls.
use thalovant_embedded_c.Base.{
  ◌++◌, ℕ, zero, suc, ◌+◌, List, [], ◌∷◌, ◌≡◌, ◌≢◌, ◌⊎◌, Bytes, All, Result, ok, ok_pair, ok_pair,
}
use thalovant_embedded_c.Noise.{Curve, Noise, uint64_max, failed_state, nonce_bytes}
use thalovant_embedded_c.AesGcm.Gcm.{aes256_gcm_encrypt}
use thalovant_embedded_c.Noise.Transport.{Call, call_encrypt, perform}

-- A frame that was sent: the key of its direction, the frame, and the ciphertext that came out.
abbrev pub Sent : Type 0
Sent = Bytes × Bytes × Bytes

-- What a call sends, where it succeeds.
sent_by : Call → Noise → Result Bytes → List Sent
sent_by (call_encrypt given frame capacity) s (ok out) = (s.send.key, frame, out) ∷ []
sent_by call s r = []

-- The frames that the calls send, one after the other.
pub sent_frames : Curve → List Call → Noise → List Sent
unfolding sent_by
sent_frames c [] s = []
sent_frames c (call ∷ calls) s =
    let (next, r) = perform c call s in sent_by call s r ++ sent_frames c calls next

-- The ciphertext is the one that AES-256-GCM makes of the frame under the key and this nonce.
abbrev pub IsSealed : Sent → Bytes → Type 0
IsSealed (key, frame, out) nonce =
    (made : Bytes × Bytes) × (aes256_gcm_encrypt key nonce [] frame ≡ ok made)
    × (out ≡ made.0 ++ made.1)

-- Each frame under its own nonce of the list.
abbrev pub SealedUnder : List Sent → List Bytes → Type 0
SealedUnder [] [] = Unit
SealedUnder (sent ∷ frames) (nonce ∷ nonces) = IsSealed sent nonce × SealedUnder frames nonces
SealedUnder _ _ = ⊥

-- What a call makes of the sending counter.
abbrev Sends : Call → Noise → Noise × Result Bytes → Type 0
Sends call s after =
    (after.0 ≡ failed_state) × (sent_by call s after.1 ≡ [])
    ⊎ (after.0.send.nonce ≡ s.send.nonce) × (sent_by call s after.1 ≡ [])
    ⊎ (s.send.nonce ≢ uint64_max)
      × (after.0.send.nonce ≡ s.send.nonce + 1)
      × ((sent : Sent) × (sent_by call s after.1 ≡ sent ∷ [])
          × IsSealed sent (nonce_bytes s.send.nonce))

abbrev count_from : ℕ → ℕ → List ℕ
count_from n zero = []
count_from n (suc k) = n ∷ count_from (n + 1) k

-- No element is equal to a later one.
abbrev pub AllDistinct : List Bytes → Type 0
AllDistinct [] = Unit
AllDistinct (x ∷ xs) = All (λ y. x ≢ y) xs × AllDistinct xs
