-- ===== src/Startup/Clients.antt =====
-- The loop over `accept`, as one conversation after the other.
use sid_pi.Base.{ℕ, ◌≡◌, refl, ap₂, List, [], ◌∷◌, ◌++◌}
use sid_pi.Server.{Server}
use sid_pi.Server.Protocol.{View}
use sid_pi.Server.Refine.Relation.{Shows}
use sid_pi.Session.{Event, Connection, connection}
use sid_pi.Session
use sid_pi.Session.Spec.{Ending, conversation}
use sid_pi.Session.Spec
use sid_pi.Session.Refine.{Follows, DeliversBytes, connection-Follows}
use sid_pi.Startup.{Client, refused, arrives, Serving, serve_clients}
use sid_pi.Startup

-- One conversation after the other, on the view that the one before has left.
pub data Hosting : Type 0 where
  at_accept : View → List (List (List ℕ)) → Hosting
  in_session : View → List (List (List ℕ)) → Hosting
  over : List (List (List ℕ)) → Hosting

abbrev pub host_clients : List Client → View → List (List (List ℕ)) → Hosting
host_clients [] v log = at_accept v log
host_clients (refused ∷ cs) v log = host_clients cs v log
host_clients (arrives es ∷ cs) v log = elim (conversation es v []) [
  | Spec.reading v' answers ↦ in_session v' (log ++ (answers ∷ []))
  | Spec.closed v' answers ↦ host_clients cs v' (log ++ (answers ∷ []))
  | Spec.ended answers ↦ over (log ++ (answers ∷ []))
]

abbrev pub FollowsAll : Serving → Hosting → Type 0
FollowsAll (Startup.at_accept s log) (at_accept v log') = Shows s v × (log ≡ log')
FollowsAll (Startup.in_session s log) (in_session v log') = Shows s v × (log ≡ log')
FollowsAll (Startup.over c log) (over log') = log ≡ log'
FollowsAll _ _ = ⊥

abbrev pub AllDeliver : List Client → Type 0
AllDeliver [] = Unit {0}
AllDeliver (refused ∷ cs) = AllDeliver cs
AllDeliver (arrives es ∷ cs) = DeliversBytes es × AllDeliver cs

-- One client, and then the others.
behind_client :
    (cs : List Client) (log log' : List (List (List ℕ))) (c : Connection) (e : Ending)
    → Follows c e
    → log ≡ log'
    → ((s : Server) (v : View) (log log' : List (List (List ℕ)))
        → Shows s v
        → log ≡ log'
        → FollowsAll (serve_clients cs s log) (host_clients cs v log'))
    → FollowsAll
        (elim c [
          | Session.reading s' sent ↦ Startup.in_session s' (log ++ (sent ∷ []))
          | Session.closed s' sent ↦ serve_clients cs s' (log ++ (sent ∷ []))
          | Session.ended c sent ↦ Startup.over c (log ++ (sent ∷ []))
        ])
        (elim e [
          | Spec.reading v' answers ↦ in_session v' (log' ++ (answers ∷ []))
          | Spec.closed v' answers ↦ host_clients cs v' (log' ++ (answers ∷ []))
          | Spec.ended answers ↦ over (log' ++ (answers ∷ []))
        ])
behind_client cs log log' (Session.reading s sent) (Spec.reading v answers) f e rest =
    (f.0, ap₂ (λ l x. l ++ (x ∷ [])) e f.1)
behind_client cs log log' (Session.closed s sent) (Spec.closed v answers) f e rest =
    rest s v _ _ f.0 (ap₂ (λ l x. l ++ (x ∷ [])) e f.1)
behind_client cs log log' (Session.ended c sent) (Spec.ended answers) f e rest =
    ap₂ (λ l x. l ++ (x ∷ [])) e f
behind_client cs log log' (Session.reading s sent) (Spec.closed v answers) f e rest = absurd f
behind_client cs log log' (Session.reading s sent) (Spec.ended answers) f e rest = absurd f
behind_client cs log log' (Session.closed s sent) (Spec.reading v answers) f e rest = absurd f
behind_client cs log log' (Session.closed s sent) (Spec.ended answers) f e rest = absurd f
behind_client cs log log' (Session.ended c sent) (Spec.reading v answers) f e rest = absurd f
behind_client cs log log' (Session.ended c sent) (Spec.closed v answers) f e rest = absurd f

-- From a server that shows a view, the loop over `accept` holds one conversation after the other with the clients,
-- each on the view that the last has left: it sends each client the answers of its conversation, stays with a
-- client whose connection stays open, and ends where a conversation ends the program.
pub serve_clients-FollowsAll :
    (cs : List Client) (s : Server) (v : View) (log log' : List (List (List ℕ)))
    → AllDeliver cs
    → Shows s v
    → log ≡ log'
    → FollowsAll (serve_clients cs s log) (host_clients cs v log')
unfolding serve_clients
serve_clients-FollowsAll [] s v log log' d h e = (h, e)
serve_clients-FollowsAll (refused ∷ cs) s v log log' d h e =
    serve_clients-FollowsAll cs s v log log' d h e
serve_clients-FollowsAll (arrives es ∷ cs) s v log log' d h e =
    behind_client cs log log' (connection es s []) (conversation es v [])
      (connection-Follows es s v [] [] d.0 h refl) e
      (λ s' v' l l' h' e'. serve_clients-FollowsAll cs s' v' l l' d.1 h' e')
