-- ===== src/Raft/Setup/Addresses.antt =====
-- The addresses that the replicas dial and listen at.
use distributed_dns.Base.{
  ℕ, zero, suc, ◌+◌, ◌<◌, ◌≡◌, ◌≢◌, ◌↔◌, refl, sym, ap, ◌∙◌, arith, false, ◌==◌, if◌then◌else◌,
  some, some_injective, [], length, get_elem?, drop, itoa_injective,
}
use distributed_dns.Raft.Setup.{grpc_address, addresses, rep_addrs}

pub addresses-length : (rid left i : ℕ) → length (addresses rid left i) ≡ left
unfolding addresses
addresses-length rid zero i = refl
addresses-length rid (suc left) i = ap suc (addresses-length rid left (suc i))

addresses-get :
    (rid left i j : ℕ)
    → j < left
    → get_elem? (addresses rid left i) j
      ≡ some (if (i + j) == rid then [] else grpc_address (i + j))
unfolding addresses
addresses-get rid zero i j lt = absurd (omega arith)
addresses-get rid (suc left) i zero lt =
    ap (λ k. some (if k == rid then [] else grpc_address k)) (omega arith)
addresses-get rid (suc left) i (suc j) lt =
    addresses-get rid left (suc i) j (omega (arith, lt))
    ∙ ap (λ k. some (if k == rid then [] else grpc_address k)) (omega arith)

grpc_address_injective : (i j : ℕ) → grpc_address i ≡ grpc_address j → i ≡ j
grpc_address_injective i j e = itoa_injective i j (ap (drop 4) e)

pub rep_addrs-reach :
    (n rid i j : ℕ)
    → i < n
    → i ≢ rid
    → (get_elem? (rep_addrs n rid) i ≡ some (grpc_address j)) ↔ (i ≡ j)
rep_addrs-reach n rid i j lt other =
    let apart : (i == rid) ≡ false = ground arith in
    let at : get_elem? (rep_addrs n rid) i ≡ some (grpc_address i) =
      addresses-get rid n 0 i lt
      ∙ ap (λ k. some (if k == rid then [] else grpc_address k)) (omega arith)
      ∙ ap (λ b. some (if b then [] else grpc_address i)) apart in
    (
      λ h. grpc_address_injective i j (some_injective (sym at ∙ h)),
      λ e. at ∙ ap (λ k. some (grpc_address k)) e,
    )
