-- ===== src/Client/Lifecycle/Creation.antt =====
-- sdk/node/src/client.ts: what `create` leaves behind.
use meta_go.Prelude.{
  ℕ, ◌≡◌, refl, Bool, false, List, [], ◌∷◌, some, ◌==◌, ==_iff, Bool-cases, inl, inr, if◌then◌else◌,
}
use meta_go.Errors.{Result, ok, err, error_middleware}
use meta_go.Proto.Info.{GetInfoResponse}
use meta_go.Client.Lifecycle.{
  Client, ClientEffect, closes_channel, stops_runtime, major_of, new_client, close_members,
  close_client, create,
}

-- A client with the runtime's answer and nothing undone, or an error with everything undone.
abbrev pub IsCreated :
    {E : Type 0}
    → ℕ
    → Bool
    → Result GetInfoResponse
    → Result (Client E) × List ClientEffect
    → Type 0
IsCreated major managed answer (ok c, out) =
    (info : GetInfoResponse) × (answer ≡ ok info)
    × (major_of info.protocol ≡ major)
    × (c.runtime_info ≡ some info)
    × (c.capabilities ≡ info.capabilities)
    × (c.closed ≡ false)
    × (out ≡ [])
IsCreated major managed answer (err e, out) =
    out ≡ closes_channel ∷ (if managed then stops_runtime ∷ [] else [])

module _ (E : Type 0) where
  close-new_client :
      (managed : Bool)
      → (close_client (new_client {E = E} managed)).1
        ≡ closes_channel ∷ (if managed then stops_runtime ∷ [] else [])
  unfolding close_client new_client close_members
  close-new_client managed = refl

  -- Either `create` returns an open client that holds the runtime's answer, with the protocol that the SDK
  -- asks for and the answer's capabilities, or it throws and has closed the channel and stopped the runtime,
  -- if it is a managed one.
  pub create-IsCreated :
      (major : ℕ) (managed : Bool) (answer : Result GetInfoResponse)
      → IsCreated major managed answer (create {E = E} major managed answer)
  unfolding create error_middleware new_client
  create-IsCreated major managed (err e) = close-new_client managed
  create-IsCreated major managed (ok info) = elim (Bool-cases (major_of info.protocol == major)) [
    | inl h ↦ rw h (info, refl, (==_iff _ _).0 h, refl, refl, refl, refl)
    | inr h ↦ rw h (close-new_client managed)
  ]
