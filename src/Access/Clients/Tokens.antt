-- ===== src/Access/Clients/Tokens.antt =====
-- Who a token stands for: `confirmPairing`, `authenticate` and `revoke` of z2c/src/authz/pairing.ts.
use agents_with_chatgpt.Prelude.{
  ◌∙◌, ℕ, String, ◌≡◌, ◌≢◌, Bool, true, false, ◌&&◌, Option, none, some, inl, inr, ok, err, sym,
  List, [], ◌∷◌, ◌++◌, map, any, find, update_first, includes, ◌==◌, arith, eq_iff, eq_refl,
  Bool-cases, Option-cases, result, after,
}
use agents_with_chatgpt.Access.Clients.{
  Client, Principal, Pairings, pairing_not_found, find_pending, burn, is_live, holder, principal_of,
  paired_client, check_code, confirm_pairing, authenticate, revoke,
}
use agents_with_chatgpt.Access.Clients.Codes.{Distinct, find_pending-id, gone-burn}

abbrev pub client_ids : List Client → List String
client_ids = map (λ c. c.client_id)

-- No two clients share an id.
unfoldable pub DistinctClients : List Client → Type 0
DistinctClients [] = Unit
DistinctClients (c ∷ cs) = (includes c.client_id (client_ids cs) ≡ false) × DistinctClients cs

module _ (hash_token : String → String) where
  find-holder_append :
      (h : String) (cs : List Client) (c : Client)
      → any (holder hash_token h) cs ≡ false
      → holder hash_token h c ≡ true
      → find (holder hash_token h) (cs ++ c ∷ []) ≡ some c
  find-holder_append h [] c n e = ground arith
  find-holder_append h (x ∷ cs) c n e = ground (arith, find-holder_append h cs c)

  confirm-ok :
      (now : ℕ) (id code client_id token : String) (st : Pairings) (c : Client)
      → result (confirm_pairing hash_token now id code client_id token) st ≡ ok c
      → (after (confirm_pairing hash_token now id code client_id token) st
          ≡ record (burn id st) { clients = st.clients ++ c ∷ [] })
        × (c.client_id ≡ client_id)
        × (c.token_hash ≡ hash_token token)
        × (c.revoked_at ≡ none)
  unfolding confirm_pairing check_code paired_client burn
  confirm-ok now id code client_id token st c e = elim (Option-cases (find_pending id st)) [
    | inl nobody ↦ absurd (ground arith)
    | inr (p, f) ↦
        (let named : p.pairing_id ≡ id = find_pending-id id st p f in
          (ground arith, ground arith, ground arith, ground arith))
  ]

  authenticate-append :
      (token : String) (st : Pairings) (c : Client)
      → token ≢ ""
      → any (holder hash_token (hash_token token)) st.clients ≡ false
      → c.token_hash ≡ hash_token token
      → c.revoked_at ≡ none
      → authenticate hash_token (record st { clients = st.clients ++ c ∷ [] }) (some token)
        ≡ some (record { client_id = c.client_id; device_name = c.device_name })
  unfolding authenticate principal_of holder is_live
  authenticate-append token st c filled fresh e live = ground (
    arith,
    eq_iff token "",
    eq_iff c.token_hash (hash_token token),
    find-holder_append (hash_token token) st.clients c fresh,
  )

  not_found :
      (now : ℕ) (id code client_id token : String) (st : Pairings)
      → find_pending id st ≡ none
      → result (confirm_pairing hash_token now id code client_id token) st ≡ err pairing_not_found
  unfolding confirm_pairing
  not_found now id code client_id token st e = ground arith

  -- A device that gave the right code in time is recognised by its token as the client that it
  -- became, unless the token already belongs to a client; and the code is spent: the same pairing
  -- cannot be confirmed again, by any code at any time.
  pub confirm-authenticates :
      (now : ℕ) (id code client_id token : String) (st : Pairings) (c : Client)
      → token ≢ ""
      → Distinct st.pending
      → any (holder hash_token (hash_token token)) st.clients ≡ false
      → result (confirm_pairing hash_token now id code client_id token) st ≡ ok c
      → (authenticate hash_token
            (after (confirm_pairing hash_token now id code client_id token) st)
            (some token)
          ≡ some (record { client_id = client_id; device_name = c.device_name }))
        × ((later : ℕ) (code' client_id' token' : String)
            → result
                (confirm_pairing hash_token later id code' client_id' token')
                (after (confirm_pairing hash_token now id code client_id token) st)
              ≡ err pairing_not_found)
  unfolding burn
  confirm-authenticates now id code client_id token st c filled d fresh e =
      let (then, named, hashed, live) = confirm-ok now id code client_id token st c e in
      rw (then, sym named)
        (
          authenticate-append token (burn id st) c filled (unfold burn in fresh) hashed live,
          λ later code' client_id' token'.
              not_found later id code' client_id' token'
                (record (burn id st) { clients = st.clients ++ c ∷ [] })
                (unfold find_pending in gone-burn id st d),
        )

abbrev live_as : String → Client → Bool
live_as id c = c.client_id == id && is_live c

module _ (hash_token : String → String) where
  found-included :
      (p : Client → Bool) (cs : List Client) (c : Client)
      → find p cs ≡ some c
      → includes c.client_id (client_ids cs) ≡ true
  unfolding includes
  found-included p [] c e = absurd (cc)
  found-included p (x ∷ cs) c e = ground (arith, eq_refl c.client_id, found-included p cs c)

  holder-other :
      (h id : String) (now : ℕ) (cs : List Client) (c : Client)
      → DistinctClients cs
      → find
          (holder hash_token h)
          (update_first (live_as id) (λ x. record x { revoked_at = some now }) cs)
        ≡ some c
      → any (live_as id) cs ≡ true
      → c.client_id ≢ id
  unfolding DistinctClients includes holder is_live
  holder-other h id now [] c d e a = absurd (ground arith)
  holder-other h id now (x ∷ cs) c d e a = elim (Bool-cases (live_as id x)) [
    | inl hit ↦
        λ same. ground (arith, eq_iff x.client_id id, found-included (holder hash_token h) cs c)
    | inr miss ↦ ground (arith, eq_iff x.client_id id, holder-other h id now cs c d.1)
  ]

  -- A client that was revoked is never recognised again, by any token.
  pub revoke-ends :
      (now : ℕ) (id : String) (st : Pairings) (token : Option String) (who : Principal)
      → DistinctClients st.clients
      → result (revoke now id) st ≡ ok tt
      → authenticate hash_token (after (revoke now id) st) token ≡ some who
      → who.client_id ≢ id
  unfolding revoke authenticate principal_of
  revoke-ends now id st none who d r e = absurd (ground arith)
  revoke-ends now id st (some t) who d r e =
      let there : any (live_as id) st.clients ≡ true = ground arith in
      let revoked : List Client =
        update_first (live_as id) (λ x. record x { revoked_at = some now }) st.clients in
      elim (Option-cases (find (holder hash_token (hash_token t)) revoked)) [
        | inl nobody ↦ absurd (ground arith)
        | inr (c, found) ↦
            (let same : c.client_id ≡ who.client_id = ground arith in
              λ h. holder-other (hash_token t) id now st.clients c d found there (same ∙ h))
      ]
