-- ===== src/Session/Framing.antt =====
-- Packets and `read`s: the loop takes what one `read` returns for one packet.
use sid_pi.Base.{
  ℕ, zero, suc, ◌+◌, ◌*◌, ◌<◌, ◌≡◌, refl, subst, arith, true, false, Option, none, some, List, [],
  ◌∷◌, ◌++◌, length, length-take, length-append, take-append, take, leb, AreBytes,
}
use sid_pi.Server.{Server, Complaint, Outcome, done, exited, process_read_buffer}
use sid_pi.Server.Protocol.{View, Response, serve}
use sid_pi.Server.Refine.Relation.{Shows, Agrees}
use sid_pi.Session.{Event, bytes, ended, receive, connection}
use sid_pi.Session.Spec.{conversation}
use sid_pi.Session.Spec
use sid_pi.Session.Refine.{Follows, DeliversBytes, connection-Follows, received-Agrees}

exits :
    (s : Server) (o : Outcome) (r : Option Response)
    → Agrees s o r
    → r ≡ none
    → (c : Complaint) × (o ≡ exited c)
exits s (exited c) r a e = (c, refl)
exits s (done s') r a e = absurd (subst (Agrees s (done s')) e a)

-- A packet that is not whole is no packet.
serve-take :
    (command sid high low : ℕ) (payload : List ℕ) (k : ℕ) (v : View)
    → length payload ≡ high * 256 + low
    → k < 4 + length payload
    → serve (take k (command ∷ sid ∷ high ∷ low ∷ payload)) v ≡ none
serve-take command sid high low payload zero v e h = refl
serve-take command sid high low payload (suc zero) v e h = refl
serve-take command sid high low payload (suc (suc zero)) v e h = refl
serve-take command sid high low payload (suc (suc (suc zero))) v e h = refl
serve-take command sid high low payload (suc (suc (suc (suc k)))) v e h =
    let short : leb (high * 256 + low) (length (take k payload)) ≡ false =
      (let l = length-take k payload in ground arith) in
    rw short refl

-- What stands behind a whole packet does not count.
serve-append :
    (command sid high low : ℕ) (payload more : List ℕ) (v : View)
    → length payload ≡ high * 256 + low
    → serve ((command ∷ sid ∷ high ∷ low ∷ payload) ++ more) v
      ≡ serve (command ∷ sid ∷ high ∷ low ∷ payload) v
serve-append command sid high low payload more v e =
    let n = high * 256 + low in
    let whole : leb n (length payload) ≡ true = ground arith in
    let more_than : leb n (length (payload ++ more)) ≡ true =
      (let l = length-append payload more in ground arith) in
    let same : take n (payload ++ more) ≡ take n payload =
      take-append n payload more (omega (arith, e)) in
    rw (whole, more_than, same) refl

connection-exits :
    (s : Server) (bs : List ℕ) (es : List Event) (sent : List (List ℕ)) (c : Complaint)
    → process_read_buffer (length bs) (receive bs s) ≡ exited c
    → connection (bytes bs ∷ es) s sent ≡ ended c sent
unfolding connection
connection-exits s bs es sent c out = rw (out, connection) refl

-- A packet that reaches the server in more than one `read` ends it: from a server that shows a view, the first part of a
-- packet, of one byte at least and short of the whole, makes the loop of `main` end the program with nothing more sent,
-- whatever would come after.
pub split_packet_ends :
    (s : Server) (v : View) (command sid high low : ℕ) (payload : List ℕ) (k : ℕ) (es : List Event)
    (sent : List (List ℕ))
    → Shows s v
    → AreBytes (take k (command ∷ sid ∷ high ∷ low ∷ payload))
    → length payload ≡ high * 256 + low
    → 0 < k
    → k < 4 + length payload
    → (c : Complaint) × (connection
          (bytes (take k (command ∷ sid ∷ high ∷ low ∷ payload)) ∷ es)
          s
          sent
        ≡ ended c sent)
split_packet_ends s v command sid high low payload k es sent h b e some_of less =
    let part = take k (command ∷ sid ∷ high ∷ low ∷ payload) in
    let (c, out) =
      exits _ _ _ (received-Agrees s v part h b)
        (serve-take command sid high low payload k v e less) in
    (c, connection-exits s part es sent c out)

-- Packets that one `read` returns together are not all served: from a server that shows a view, a read of a whole packet
-- and of more behind it is answered as the packet alone, and the loop goes on as if the rest had not come.
pub trailing_bytes_lost :
    (s : Server) (v : View) (command sid high low : ℕ) (payload more : List ℕ) (es : List Event)
    (sent : List (List ℕ))
    → Shows s v
    → AreBytes ((command ∷ sid ∷ high ∷ low ∷ payload) ++ more)
    → DeliversBytes es
    → length payload ≡ high * 256 + low
    → Follows
        (connection (bytes ((command ∷ sid ∷ high ∷ low ∷ payload) ++ more) ∷ es) s sent)
        (conversation (bytes (command ∷ sid ∷ high ∷ low ∷ payload) ∷ es) v sent)
trailing_bytes_lost s v command sid high low payload more es sent h b d e =
    let all = (command ∷ sid ∷ high ∷ low ∷ payload) ++ more in
    subst
      (λ r. Follows (connection (bytes all ∷ es) s sent) (elim r [
        | some r ↦ conversation es r.view (sent ++ (r.answer ∷ []))
        | none ↦ Spec.ended sent
      ]))
      (serve-append command sid high low payload more v e)
      (connection-Follows (bytes all ∷ es) s v sent sent (b, d) h refl)
