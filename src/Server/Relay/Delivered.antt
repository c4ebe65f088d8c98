-- ===== src/Server/Relay/Delivered.antt =====
-- src/server.rs: what a client is sent of a file.
use stuntdouble.Common.{
  ℕ, zero, suc, ◌+◌, ◌-◌, ◌≤◌, ◌<◌, ◌≡◌, ◌≢◌, ◌⊎◌, ◌↔◌, min, refl, ap, sym, ◌∙◌, inl, inr, Bool,
  true, false, Option, none, some, [], ◌∷◌, ◌++◌, length, length-append, take, drop, arith,
  Bool-cases, Option-cases,
}
use stuntdouble.Common.Bytes.{Bytes}
use stuntdouble.Common.Text.{u64_max}
use stuntdouble.Files
use stuntdouble.Files.{StreamOutcome, complete, file_error, client_disconnected, from_channel_close}
use stuntdouble.Server.Relay.{
  Relay, Ending, stop, behind, pump, seek_first, relay_file_stream, stream_chunk_bytes,
}

-- The file is a text that does not change, read from a position on, never more than is asked for.
pub record IsFile (relay : Relay) (contents : Bytes) (at : relay.World → ℕ) : Type 0 where
  pub seeks : (n : ℕ) (w : relay.World) → (relay.seek n w).0 ≡ true → at (relay.seek n w).1 ≡ n
  pub reads :
      (n : ℕ) (w : relay.World) (bytes : Bytes)
      → (relay.read n w).0 ≡ some bytes
      → (length bytes ≤ n)
        × (bytes ≡ take (length bytes) (drop (at w) contents))
        × (at (relay.read n w).1 ≡ at w + length bytes)
  pub sends : (bytes : Bytes) (w : relay.World) → at (relay.send bytes w).1 ≡ at w

take-plus : (n m : ℕ) (s : Bytes) → take (n + m) s ≡ take n s ++ take m (drop n s)
take-plus zero m s = let same : 0 + m ≡ m = omega arith in rw same refl
take-plus (suc n) zero [] = let same : suc n + 0 ≡ suc n = omega arith in rw same refl
take-plus (suc n) (suc m) [] =
    let same : suc n + suc m ≡ suc (n + suc m) = omega arith in rw same refl
take-plus (suc n) m (c ∷ s) =
    let same : suc n + m ≡ suc (n + m) = omega arith in rw same (ap (λ t. c ∷ t) (take-plus n m s))

drop-nil : (n : ℕ) → drop {A = ℕ} n [] ≡ []
drop-nil zero = refl
drop-nil (suc n) = refl

drop-drop : (n m : ℕ) (s : Bytes) → drop m (drop n s) ≡ drop (n + m) s
drop-drop zero m s = let same : 0 + m ≡ m = omega arith in rw same refl
drop-drop (suc n) m [] = let same : suc n + m ≡ suc (n + m) = omega arith in rw same (drop-nil m)
drop-drop (suc n) m (c ∷ s) =
    let same : suc n + m ≡ suc (n + m) = omega arith in rw same (drop-drop n m s)

-- The outcome, the count and the bytes that were sent agree on each other: the outcome is complete
-- exactly if all that was asked for has been counted, what is counted is what was sent, and an error
-- follows only a file error.
pub record IsDelivered (W : Type 0) (contents : Bytes) (from before len : ℕ) (end : Ending W)
    : Type 0 where
  pub counted_is : end.counted ≡ before + length end.sent
  pub bounded : end.counted ≤ len
  pub complete_iff : (end.outcome ≡ complete) ↔ (end.counted ≡ len)
  pub error_is : end.error_sent ≡ true → end.outcome ≡ file_error
  pub sent_is : end.sent ≡ take (length end.sent) (drop from contents)

module _ (relay : Relay) (contents : Bytes) (at : relay.World → ℕ)
    (file : IsFile relay contents at) where
  -- It ends, and has delivered.
  abbrev pub Ends : ℕ → ℕ → ℕ → Option (Ending relay.World) → Type 0
  Ends from before len none = ⊥
  Ends from before len (some end) = IsDelivered relay.World contents from before len end

  Ends-behind :
      (from before len : ℕ) (bytes : Bytes) (o : Option (Ending relay.World))
      → bytes ≡ take (length bytes) (drop from contents)
      → Ends (from + length bytes) (before + length bytes) len o
      → Ends from before len (behind relay bytes o)
  Ends-behind from before len bytes none e h = h
  Ends-behind from before len bytes (some end) e h = record {
    counted_is = omega (arith, h.counted_is, length-append bytes end.sent);
    bounded = h.bounded;
    complete_iff = h.complete_iff;
    error_is = h.error_is;
    sent_is =
        let n = length bytes in
        let m = length end.sent in
        let rest = drop from contents in
        ap (λ b. b ++ end.sent) e
        ∙ ap (λ b. take n rest ++ b) (h.sent_is ∙ ap (take m) (sym (drop-drop from n contents)))
        ∙ sym (take-plus n m rest)
        ∙ ap (λ k. take k rest) (sym (length-append bytes end.sent));
  }

  stop-Ends :
      (from counted len : ℕ) (outcome : StreamOutcome) (error_sent : Bool) (w : relay.World)
      → outcome ≢ complete
      → counted < len
      → (error_sent ≡ true → outcome ≡ file_error)
      → Ends from counted len (some (stop relay outcome counted error_sent w))
  stop-Ends from counted len outcome error_sent w open_still small why = record {
    counted_is = omega arith;
    bounded = omega arith;
    complete_iff = (λ e. absurd (open_still e), λ e. absurd (omega (arith, e)));
    error_is = why;
    sent_is = refl;
  }

  closed-ne : (counted len : ℕ) → counted < len → from_channel_close counted (some len) ≢ complete
  unfolding Files.from_channel_close
  closed-ne counted len h e = ground arith

  pump-Ends :
      (fuel len counted remaining : ℕ) (w : relay.World)
      → len < u64_max
      → counted + remaining ≡ len
      → remaining ≤ fuel
      → Ends (at w) counted len (pump relay fuel len counted remaining w)
  unfolding pump
  pump-Ends fuel len counted zero w room whole enough = record {
    counted_is = omega arith;
    bounded = omega arith;
    complete_iff = (λ e. omega arith, λ e. refl);
    error_is = λ e. absurd (ground arith);
    sent_is = refl;
  }
  pump-Ends zero len counted (suc remaining) w room whole enough = absurd (omega arith)
  pump-Ends (suc fuel) len counted (suc remaining) w room whole enough =
      let asked = min (suc remaining) stream_chunk_bytes in
      let less : counted < len = omega arith in
      elim (Option-cases (relay.read asked w).0) [
        | inl failed ↦
            rw (pump, failed)
              (stop-Ends (at w) counted len file_error true (relay.read asked w).1
                (λ e. ground arith) less (λ e. refl))
        | inr ([], none_left) ↦
            rw (pump, none_left)
              (stop-Ends (at w) counted len file_error false (relay.read asked w).1
                (λ e. ground arith) less (λ e. refl))
        | inr (c ∷ bytes, there) ↦
            let next = (relay.read asked w).1 in
            let n = length (c ∷ bytes) in
            let (within, is_part, moved) = file.reads asked w (c ∷ bytes) there in
            elim (Bool-cases (relay.send (c ∷ bytes) next).0) [
              | inr gone ↦
                  rw (pump, there, gone)
                    (stop-Ends (at w) counted len (from_channel_close counted (some len)) false
                      (relay.send (c ∷ bytes) next).1 (closed-ne counted len less) less
                      (λ e. absurd (ground (arith, e))))
              | inl taken ↦
                  let plain : min (counted + n) u64_max ≡ counted + n = omega (arith, within) in
                  rw (pump, there, taken, plain)
                    (Ends-behind (at w) counted len (c ∷ bytes) _ is_part (
                      rw (← moved, ← file.sends (c ∷ bytes) next)
                        (pump-Ends fuel len (counted + n) (suc remaining - n)
                          (relay.send (c ∷ bytes) next).1 room (omega (arith, within))
                          (omega (arith, within)))))
            ]
      ]

  found-Ends :
      (offset len : ℕ) (w : relay.World)
      → len < u64_max
      → at w ≡ 0
      → (seek_first relay offset w).0 ≡ true
      → Ends offset 0 len (relay_file_stream relay offset len w)
  unfolding relay_file_stream seek_first
  found-Ends zero len w room start found =
      rw start at (pump-Ends len len 0 len w room (omega arith) (omega arith))
  found-Ends (suc offset) len w room start found =
      let there = file.seeks (suc offset) w found in
      rw (relay_file_stream, found)
        (rw there at
          (pump-Ends len len 0 len (relay.seek (suc offset) w).1 room (omega arith) (omega arith)))

  -- The relay of a body ends, whatever the file and the client do. If the seek to the offset fails,
  -- it sends nothing but an error, and the outcome is a file error. Otherwise what it counts is what
  -- it sent, which is the part of the file from the offset on and never more than the announced
  -- length; the outcome is complete exactly if all of that was sent; and an error is sent last only
  -- after a file error. The length is below 2 ^ 64 - 1, and the file does not change and stands at
  -- its beginning.
  pub relay_file_stream-Ends :
      (offset len : ℕ) (w : relay.World)
      → len < u64_max
      → at w ≡ 0
      → (((seek_first relay offset w).0 ≡ false)
          × (relay_file_stream relay offset len w
              ≡ some (stop relay file_error 0 true (seek_first relay offset w).1)))
        ⊎ Ends offset 0 len (relay_file_stream relay offset len w)
  unfolding relay_file_stream
  relay_file_stream-Ends offset len w room start = elim (Bool-cases (seek_first relay offset w).0) [
    | inl found ↦ inr (found-Ends offset len w room start found)
    | inr lost ↦ inl (lost, rw (relay_file_stream, lost) refl)
  ]
