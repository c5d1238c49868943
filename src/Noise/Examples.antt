-- ===== src/Noise/Examples.antt =====
-- Runs of src/noise.c at concrete inputs. The key agreement is a commutative one of sums.
use thalovant_embedded_c.Base.{
  ◌⊎◌, ℕ, ◌+◌, ◌%◌, Bool, true, false, Option, none, some, List, [], ◌∷◌, ◌++◌, ◌≡◌, refl, sym, ap,
  ◌↔◌, Bytes, codes, length, replicate, get_or, ok, err, invalid, nomem, arith,
}
use thalovant_embedded_c.Noise.{
  noise_xx, noise_kk, Curve, Noise, zero_state, failed_state, settle, seal,
}
use thalovant_embedded_c.Noise.Sealing.{seal_ok}
use thalovant_embedded_c.Noise.Frames.{IsPaired, Carries-encrypt, decrypt_iff_encrypt}
use thalovant_embedded_c.Noise.Choice.{Among, noise_select-advertised}
use thalovant_embedded_c.Noise.Session.{run_calls-after_error}
use thalovant_embedded_c.Noise.Delivery.{
  Link, send_frame, Steps, done, more, first_link, delivered_in_order, delivery_succeeds,
}
use thalovant_embedded_c.Noise.Handshake.{noise_init, noise_init_body, public_or_invalid, is_some}
use thalovant_embedded_c.Noise.Transport.{
  noise_select, offers, chosen_pattern, marker, noise_encrypt, noise_encrypt_body, noise_decrypt,
  Call, call_encrypt, perform, run_calls,
}
use thalovant_embedded_c.Noise.Agreement.{IsAgreement}
use thalovant_embedded_c.Noise.Completion.{exchange}
use thalovant_embedded_c.Noise.Patterns.{Completes}
use thalovant_embedded_c.Noise.Establish.{xx-Completes, kk-Completes}

abbrev sum : Bytes → ℕ
sum [] = 0
sum (x ∷ xs) = x + sum xs

abbrev sums : Curve
sums = record {
  x25519 = λ a b. ok (replicate 32 ((sum a + get_or b 0 0) % 256));
  x25519_public = λ a. ok (replicate 32 (sum a % 256));
}

sums-IsAgreement : IsAgreement sums
sums-IsAgreement = (sized, met)
  where
    sized : (a p : Bytes) → ok (replicate 32 (sum a % 256)) ≡ ok p → length p ≡ 32
    sized a p h = let e : replicate 32 (sum a % 256) ≡ p = cc in rw (sym e) refl

    first : (a p : Bytes) → ok (replicate 32 (sum a % 256)) ≡ ok p → get_or p 0 0 ≡ sum a % 256
    first a p h = let e : replicate 32 (sum a % 256) ≡ p = cc in rw (sym e) refl

    met :
        (a b p q : Bytes)
        → sums.x25519_public a ≡ ok p
        → sums.x25519_public b ≡ ok q
        → sums.x25519 a q ≡ sums.x25519 b p
    met a b p q h k =
        let x = first a p h in
        let y = first b q k in
        let n : (sum a + get_or q 0 0) % 256 ≡ (sum b + get_or p 0 0) % 256 = omega arith in
        ap (λ (v : ℕ). ok (replicate 32 v)) n

abbrev zero_key : Bytes
zero_key = replicate 32 0

abbrev sender : Noise
sender = record zero_state {
  send = record { key = zero_key; nonce = 0; chunked = false };
  ready = true;
}

abbrev receiver : Noise
receiver = record zero_state {
  receive = record { key = zero_key; nonce = 0; chunked = false };
  ready = true;
}

ends-IsPaired : IsPaired sender receiver
unfolding zero_state
ends-IsPaired = ((refl, refl), (refl, refl), refl, refl)

abbrev greeting : Bytes
greeting = 0 ∷ codes "hello"

abbrev sealed_greeting :
    (out : Bytes) × (seal zero_key 0 [] greeting ≡ ok (1, out)) × (length out ≡ 22)
sealed_greeting = seal_ok zero_key 0 [] greeting refl (omega arith)

abbrev sender_after : Noise
sender_after = record sender { send = record { key = zero_key; nonce = 1; chunked = false } }

greeting_sent : noise_encrypt true sender greeting 100 ≡ (sender_after, ok sealed_greeting.0)
unfolding marker zero_state
greeting_sent =
    Carries-encrypt sender greeting 100 sender_after.send sealed_greeting.0 (refl, refl)
      (omega arith) (omega arith) (refl, sealed_greeting.1, refl)

abbrev under_way : Link
under_way = record {
  sender = sender_after;
  receiver = receiver;
  flight = sealed_greeting.0 ∷ [];
  sent = greeting ∷ [];
  got = [];
}

one_step : Steps (first_link sender receiver) under_way
unfolding first_link
one_step =
    more (done (first_link sender receiver))
      (send_frame sender_after greeting sealed_greeting.0 100 greeting_sent)

decrypt_iff_encrypt_example :
    (noise_decrypt true receiver sealed_greeting.0 100
      ≡ (record receiver { receive = sender_after.send }, ok greeting))
    ↔ (noise_encrypt true sender greeting 100
        ≡ (record sender { send = sender_after.send }, ok sealed_greeting.0))
decrypt_iff_encrypt_example =
    decrypt_iff_encrypt sender receiver sender_after.send greeting sealed_greeting.0 100 100
      ends-IsPaired (omega arith) (omega arith) (omega arith)

delivered_in_order_example : (pending : List Bytes) × (greeting ∷ [] ≡ [] ++ pending)
delivered_in_order_example = delivered_in_order sender receiver under_way ends-IsPaired one_step

delivery_succeeds_example :
    (next : Noise) × (frame : Bytes) × (later : List Bytes) × (noise_decrypt true receiver
        sealed_greeting.0 65001
      ≡ (next, ok frame))
    × (greeting ∷ [] ≡ ([] ++ frame ∷ []) ++ later)
delivery_succeeds_example =
    delivery_succeeds sender receiver under_way sealed_greeting.0 [] 65001 ends-IsPaired one_step
      refl (omega arith)

abbrev two_sends : List Call
two_sends = call_encrypt true greeting 100 ∷ call_encrypt true greeting 100 ∷ []

run_calls-after_error_example :
    run_calls sums two_sends failed_state ≡ (failed_state, err invalid ∷ err invalid ∷ [])
unfolding perform noise_encrypt noise_encrypt_body settle zero_state
run_calls-after_error_example =
    run_calls-after_error sums (call_encrypt true greeting 4) two_sends sender failed_state nomem
      refl

abbrev private_keys : ℕ → Bytes
private_keys n = replicate 32 n

abbrev public_key : ℕ → Bytes
public_key n = replicate 32 (sum (private_keys n) % 256)

abbrev set_up : ℕ → Bool → ℕ → ℕ → Option Bytes → Noise
set_up pattern initiator s e pin =
    (noise_init sums true pattern initiator zero_key (codes "hello") (private_keys s)
      (private_keys e) pin).0

xx-Completes_example :
    (a b : Noise) × (exchange sums
        (greeting ∷ [] ∷ greeting ∷ [])
        (set_up 1 true 1 2 none)
        (set_up 1 false 3 4 none)
      ≡ ok (b, a, greeting ∷ [] ∷ greeting ∷ []))
    × Completes a b (public_key 1) (public_key 3)
unfolding noise_init noise_init_body public_or_invalid settle
xx-Completes_example =
    xx-Completes sums sums-IsAgreement zero_key (codes "hello") (private_keys 1) (private_keys 2)
      (private_keys 3) (private_keys 4) (public_key 1) (public_key 2) (public_key 3) (public_key 4)
      none none refl refl refl refl (_, refl) (_, refl) (_, refl) (_, refl) tt tt
      (set_up 1 true 1 2 none) (set_up 1 false 3 4 none) greeting [] greeting refl refl
      (omega arith) (omega arith) (omega arith)

kk-Completes_example :
    (a b : Noise) × (exchange sums
        (greeting ∷ [] ∷ [])
        (set_up 2 true 1 2 (some (public_key 3)))
        (set_up 2 false 3 4 (some (public_key 1)))
      ≡ ok (a, b, greeting ∷ [] ∷ []))
    × Completes a b (public_key 1) (public_key 3)
unfolding noise_init noise_init_body public_or_invalid settle is_some
kk-Completes_example =
    kk-Completes sums sums-IsAgreement zero_key (codes "hello") (private_keys 1) (private_keys 2)
      (private_keys 3) (private_keys 4) (public_key 1) (public_key 2) (public_key 3) (public_key 4)
      (some (public_key 3)) (some (public_key 1)) refl refl refl refl (_, refl) (_, refl) (_, refl)
      (_, refl) refl refl (set_up 2 true 1 2 (some (public_key 3)))
      (set_up 2 false 3 4 (some (public_key 1))) greeting [] refl refl refl refl (omega arith)
      (omega arith)

noise_select-advertised_example :
    Among (codes "25519_AESGCM_SHA256") (some (codes "25519_AESGCM_SHA256") ∷ [])
    × ((noise_kk ≡ noise_kk)
          × (true ≡ true)
          × Among (codes "KKpsk0") (some (codes "XXpsk2") ∷ none ∷ some (codes "KKpsk0") ∷ [])
        ⊎ (noise_kk ≡ noise_xx)
          × ((true ≡ false)
              ⊎ ¬ Among
                  (codes "KKpsk0")
                  (some (codes "XXpsk2") ∷ none ∷ some (codes "KKpsk0") ∷ []))
          × Among (codes "XXpsk2") (some (codes "XXpsk2") ∷ none ∷ some (codes "KKpsk0") ∷ []))
unfolding noise_select offers chosen_pattern
noise_select-advertised_example =
    noise_select-advertised (some (codes "XXpsk2") ∷ none ∷ some (codes "KKpsk0") ∷ [])
      (some (codes "25519_AESGCM_SHA256") ∷ []) true noise_kk refl
