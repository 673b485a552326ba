-- ===== src/Raft/Replicate/Connection.antt =====
-- The connection of a leader to a replica that answers by `AppendEntries`; it can lose calls.
use distributed_dns.Base.{
  ◌≡◌, ◌⊎◌, inl, inr, refl, ap, arith, Bool, true, false, Option, some, none, List, [], ◌∷◌, Run,
  ok, ◌>>=◌, drop,
}
use distributed_dns.Raft.Protos.{AppendEntriesMessage, AppendEntriesResponse}
use distributed_dns.Raft.Node.{Replica}
use distributed_dns.Raft.Append.{append_entries}

-- What happens to a call: the reply arrives, or the request or the reply is lost.
pub data Fate : Type 0 where
  arrives request_lost reply_lost : Fate

-- The replica, and the fates of the next calls; all later ones arrive.
abbrev pub Link : Type 0
Link = Replica × List Fate

abbrev pub fate_of : List Fate → Fate
fate_of [] = arrives
fate_of (x ∷ xs) = x

-- The RPC of the replica over the connection, for a call with this fate.
abbrev pub carry :
    Fate → AppendEntriesMessage → Replica → List Fate → Run (Link × Option AppendEntriesResponse)
carry arrives msg f later = do r ← append_entries msg f; ok ((r.0, later), some r.1)
carry request_lost msg f later = ok ((f, later), none)
carry reply_lost msg f later = do r ← append_entries msg f; ok ((r.0, later), none)

unfoldable pub answer : AppendEntriesMessage → Link → Run (Link × Option AppendEntriesResponse)
answer msg (f, fates) = carry (fate_of fates) msg f (drop 1 fates)

pub answer-carry :
    (msg : AppendEntriesMessage) (f : Replica) (fates : List Fate) {x : Fate}
    → fate_of fates ≡ x
    → answer msg (f, fates) ≡ carry x msg f (drop 1 fates)
unfolding answer
answer-carry msg f fates e = ap (λ x. carry x msg f (drop 1 fates)) e

abbrev pub AllArrive : List Fate → Type 0
AllArrive [] = Unit
AllArrive (x ∷ xs) = (x ≡ arrives) × AllArrive xs

abbrev pub lossless : List Fate → Bool
lossless [] = true
lossless (arrives ∷ xs) = lossless xs
lossless (request_lost ∷ xs) = false
lossless (reply_lost ∷ xs) = false

pub lossless-AllArrive : (fates : List Fate) → lossless fates ≡ true → AllArrive fates
lossless-AllArrive [] h = tt
lossless-AllArrive (arrives ∷ xs) h = (refl, lossless-AllArrive xs h)
lossless-AllArrive (request_lost ∷ xs) h = ground arith
lossless-AllArrive (reply_lost ∷ xs) h = ground arith

pub AllArrive-drop : (fates : List Fate) → AllArrive fates → AllArrive (drop 1 fates)
AllArrive-drop [] h = tt
AllArrive-drop (x ∷ xs) h = h.1

pub AllArrive-fate_of : (fates : List Fate) → AllArrive fates → fate_of fates ≡ arrives
AllArrive-fate_of [] h = refl
AllArrive-fate_of (x ∷ xs) h = h.0

pub Fate-cases : (x : Fate) → (x ≡ arrives) ⊎ (x ≡ request_lost) ⊎ (x ≡ reply_lost)
Fate-cases arrives = inl refl
Fate-cases request_lost = inr (inl refl)
Fate-cases reply_lost = inr (inr refl)
