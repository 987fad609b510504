-- ===== src/Router/Frame/Sent.antt =====
-- What writeFramedDNS has sent, however the writer takes it.
use cotten_router.Prelude.{
  ◌≡◌, refl, sym, ap, subst, ◌∙◌, List, [], ◌∷◌, ◌++◌, append_assoc, append-nil, ltb, ◌==◌, Bytes,
  length, take, drop, take-append-drop, Result, ok, err, panic, no_fuel, if_cases, nat_eq,
}
use cotten_router.Router.Frame.{
  IoError, WriteCall, wrote, failed, write_all, size_prefix, then_write, write_framed,
}

-- What has been sent is the start of the data, and all of it where the writer succeeds.
abbrev pub Sends : Bytes → Result IoError (List WriteCall) × Bytes → Type 0
Sends content (ok calls, sent) = sent ≡ content
Sends content (_, sent) = (rest : Bytes) × (content ≡ sent ++ rest)

Sends-append :
    (front content : Bytes) (r : Result IoError (List WriteCall)) (sent : Bytes)
    → Sends content (r, sent)
    → Sends (front ++ content) (r, front ++ sent)
Sends-append front content (ok calls) sent h = ap (◌++◌ front) h
Sends-append front content (err e) sent (rest, h) =
    (rest, ap (◌++◌ front) h ∙ sym (append_assoc front sent rest))
Sends-append front content panic sent (rest, h) =
    (rest, ap (◌++◌ front) h ∙ sym (append_assoc front sent rest))
Sends-append front content no_fuel sent (rest, h) =
    (rest, ap (◌++◌ front) h ∙ sym (append_assoc front sent rest))

write_all-Sends :
    (calls : List WriteCall) (content : Bytes) → Sends content (write_all calls content)
unfolding write_all
write_all-Sends calls [] = refl
write_all-Sends [] (b ∷ d) = (b ∷ d, refl)
write_all-Sends (failed n ∷ calls) (b ∷ d) = (drop n (b ∷ d), sym (take-append-drop n (b ∷ d)))
write_all-Sends (wrote n ∷ calls) (b ∷ d) =
    let rest = write_all-Sends calls (drop n (b ∷ d)) in
    let r = write_all calls (drop n (b ∷ d)) in
    if_cases (Sends (b ∷ d)) (n == 0) _ _ (λ h. (b ∷ d, refl))
      (λ h.
        if_cases (Sends (b ∷ d)) (ltb (length (b ∷ d)) n) _ _ (λ k. ([], sym (append-nil (b ∷ d))))
          (λ k.
            subst (λ content. Sends content (r.0, take n (b ∷ d) ++ r.1))
              (take-append-drop n (b ∷ d))
              (Sends-append (take n (b ∷ d)) (drop n (b ∷ d)) r.0 r.1 rest)))

-- The size, and the packet.
abbrev pub frame : Bytes → Bytes
frame packet = size_prefix packet ++ packet

then_write-Sends :
    (packet : Bytes) (r : Result IoError (List WriteCall)) (sent : Bytes)
    → Sends (size_prefix packet) (r, sent)
    → Sends (frame packet) (then_write packet (r, sent))
then_write-Sends packet (ok calls) sent h =
    let w = write_all calls packet in
    subst (λ s. Sends (frame packet) (w.0, s ++ w.1)) (sym h)
      (Sends-append (size_prefix packet) packet w.0 w.1 (write_all-Sends calls packet))
then_write-Sends packet (err e) sent (rest, h) =
    (rest ++ packet, ap (λ s. s ++ packet) h ∙ append_assoc sent rest packet)
then_write-Sends packet panic sent (rest, h) =
    (rest ++ packet, ap (λ s. s ++ packet) h ∙ append_assoc sent rest packet)
then_write-Sends packet no_fuel sent (rest, h) =
    (rest ++ packet, ap (λ s. s ++ packet) h ∙ append_assoc sent rest packet)

pub write_framed-Sends :
    (calls : List WriteCall) (packet : Bytes) → Sends (frame packet) (write_framed calls packet)
unfolding write_framed
write_framed-Sends calls packet =
    let w = write_all calls (size_prefix packet) in
    then_write-Sends packet w.0 w.1 (write_all-Sends calls (size_prefix packet))

pub Sends-prefix :
    (content : Bytes) (r : Result IoError (List WriteCall)) (sent : Bytes)
    → Sends content (r, sent)
    → (rest : Bytes) × (content ≡ sent ++ rest)
Sends-prefix content (ok calls) sent h = ([], sym h ∙ sym (append-nil sent))
Sends-prefix content (err e) sent h = h
Sends-prefix content panic sent h = h
Sends-prefix content no_fuel sent h = h
