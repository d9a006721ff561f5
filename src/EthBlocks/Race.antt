-- ===== src/EthBlocks/Race.antt =====
-- pkg/transformer/eth_getBlockByHash.go: `Request`, where the request of the node and that of the
-- database's hash run side by side, and when it comes to an end.
use charon.Prelude.{
  ◌≡◌, ◌≢◌, ◌↔◌, sym, ◌∙◌, ◌⊎◌, inl, inr, refl, Bool, true, false, Option, none, some, List, [],
  ◌∷◌, Text,
}
use charon.Hex.Prefix.{remove_hex_prefix}
use charon.Rpc.{JsonRpcError}
use charon.Lookups.ByHash.{Lookup}

-- What one of the two goroutines puts into a channel. A backup that is refused, or that there is
-- none, is an error in `revoBlockErrorChan`.
pub data Delivery (B : Type 0) : Type 0 where
  main backup : Lookup B → Delivery B
  no_backup : Delivery B

-- How the handler ends; a panic of a goroutine is one of the program.
pub data Ending (B : Type 0) : Type 0 where
  answers : Lookup B → Ending B
  hangs : Ending B

-- The second `select`: it waits for a result, or for an error of the backup to give its own answer.
-- The Boolean is that such an error is there already. Nothing reads `errorChan` any more.
unfoldable pub wait_for_second : {B : Type 0} → Lookup B → Bool → List (Delivery B) → Ending B
wait_for_second l true ds = Ending.answers l
wait_for_second l false [] = Ending.hangs
wait_for_second l false (Delivery.main (Lookup.refused e) ∷ ds) = wait_for_second l false ds
wait_for_second l false (Delivery.main (Lookup.result b) ∷ ds) = Ending.answers (Lookup.result b)
wait_for_second l false (Delivery.main Lookup.null ∷ ds) = Ending.answers Lookup.null
wait_for_second l false (Delivery.main Lookup.panics ∷ ds) = Ending.answers Lookup.panics
wait_for_second l false (Delivery.main Lookup.out_of_fuel ∷ ds) = Ending.answers Lookup.out_of_fuel
wait_for_second l false (Delivery.backup (Lookup.refused e) ∷ ds) = Ending.answers l
wait_for_second l false (Delivery.backup (Lookup.result b) ∷ ds) = Ending.answers (Lookup.result b)
wait_for_second l false (Delivery.backup Lookup.null ∷ ds) = Ending.answers Lookup.null
wait_for_second l false (Delivery.backup Lookup.panics ∷ ds) = Ending.answers Lookup.panics
wait_for_second l false (Delivery.backup Lookup.out_of_fuel ∷ ds) =
    Ending.answers Lookup.out_of_fuel
wait_for_second l false (Delivery.no_backup ∷ ds) = Ending.answers l

-- The first `select`, over the deliveries in the order in which they are received.
unfoldable pub receive : {B : Type 0} → Bool → List (Delivery B) → Ending B
receive seen [] = Ending.hangs
receive seen (Delivery.main (Lookup.result b) ∷ ds) = Ending.answers (Lookup.result b)
receive seen (Delivery.main Lookup.null ∷ ds) = wait_for_second Lookup.null seen ds
receive seen (Delivery.main (Lookup.refused e) ∷ ds) = wait_for_second (Lookup.refused e) seen ds
receive seen (Delivery.main Lookup.panics ∷ ds) = Ending.answers Lookup.panics
receive seen (Delivery.main Lookup.out_of_fuel ∷ ds) = Ending.answers Lookup.out_of_fuel
receive seen (Delivery.backup (Lookup.result b) ∷ ds) = Ending.answers (Lookup.result b)
receive seen (Delivery.backup Lookup.null ∷ ds) = wait_for_second Lookup.null seen ds
receive seen (Delivery.backup (Lookup.refused e) ∷ ds) = receive true ds
receive seen (Delivery.backup Lookup.panics ∷ ds) = Ending.answers Lookup.panics
receive seen (Delivery.backup Lookup.out_of_fuel ∷ ds) = Ending.answers Lookup.out_of_fuel
receive seen (Delivery.no_backup ∷ ds) = receive true ds

-- What comes of the database: `none` is that none is configured, an error is one of its own, and
-- without a hash it does not know the block.
unfoldable pub backup_of :
    {B : Type 0} → (Text → Lookup B) → Option (Text ⊎ Option Text) → Option (Lookup B)
backup_of request none = none
backup_of request (some (inl e)) = none
backup_of request (some (inr none)) = none
backup_of request (some (inr (some revo_hash))) = some (request (remove_hex_prefix revo_hash))

unfoldable pub offered : {B : Type 0} → Option (Lookup B) → Delivery B
offered none = Delivery.no_backup
offered (some l) = Delivery.backup l

abbrev pub in_order : {B : Type 0} → Bool → Delivery B → Delivery B → List (Delivery B)
in_order true d d' = d ∷ d' ∷ []
in_order false d d' = d' ∷ d ∷ []

-- `Request` of a hash, with what the database answers for one, and whether the request of the node is
-- received first; `request` is that of the handler.
unfoldable pub request_get_block_by_hash :
    {B : Type 0} → (Text → Lookup B) → (Text → Option (Text ⊎ Option Text)) → Bool → Text → Ending B
request_get_block_by_hash request database main_first hash =
    let plain = remove_hex_prefix hash in
    receive false (
      in_order main_first (Delivery.main (request plain))
        (offered (backup_of request (database plain))))

module _ {B : Type 0} (request : Text → Lookup B)
    (database : Text → Option (Text ⊎ Option Text)) where
  -- The answers for a hash, of the node and of the database.
  abbrev pub main_of : Text → Lookup B
  main_of hash = request (remove_hex_prefix hash)

  abbrev pub second_of : Text → Option (Lookup B)
  second_of hash = backup_of request (database (remove_hex_prefix hash))

  abbrev pub IsRefused : Lookup B → Type 0
  IsRefused l = (e : JsonRpcError) × (l ≡ Lookup.refused e)

  wait_for_second-ends :
      (l : Lookup B) (o : Option (Lookup B))
      → wait_for_second l false (offered o ∷ []) ≢ Ending.hangs
  unfolding wait_for_second offered
  wait_for_second-ends l none = λ h. cc
  wait_for_second-ends l (some (Lookup.result b)) = λ h. cc
  wait_for_second-ends l (some Lookup.null) = λ h. cc
  wait_for_second-ends l (some (Lookup.refused e)) = λ h. cc
  wait_for_second-ends l (some Lookup.panics) = λ h. cc
  wait_for_second-ends l (some Lookup.out_of_fuel) = λ h. cc

  main_alone : (m : Lookup B) → receive true (Delivery.main m ∷ []) ≡ Ending.answers m
  unfolding receive wait_for_second
  main_alone (Lookup.result b) = refl
  main_alone Lookup.null = refl
  main_alone (Lookup.refused e) = refl
  main_alone Lookup.panics = refl
  main_alone Lookup.out_of_fuel = refl

  main_first-ends :
      (m : Lookup B) (o : Option (Lookup B))
      → receive false (Delivery.main m ∷ offered o ∷ []) ≢ Ending.hangs
  unfolding receive
  main_first-ends (Lookup.result b) o = λ h. cc
  main_first-ends Lookup.null o = wait_for_second-ends Lookup.null o
  main_first-ends (Lookup.refused e) o = wait_for_second-ends (Lookup.refused e) o
  main_first-ends Lookup.panics o = λ h. cc
  main_first-ends Lookup.out_of_fuel o = λ h. cc

  waits_for_error :
      (m : Lookup B)
      → wait_for_second Lookup.null false (Delivery.main m ∷ []) ≡ Ending.hangs
      → IsRefused m
  unfolding wait_for_second
  waits_for_error (Lookup.refused e) h = (e, refl)
  waits_for_error (Lookup.result b) h = absurd (cc)
  waits_for_error Lookup.null h = absurd (cc)
  waits_for_error Lookup.panics h = absurd (cc)
  waits_for_error Lookup.out_of_fuel h = absurd (cc)

  answered : (m : Lookup B) → Ending.answers m ≢ Ending.hangs
  answered m = λ h. cc

  main_second :
      (m : Lookup B) (o : Option (Lookup B))
      → receive false (offered o ∷ Delivery.main m ∷ []) ≡ Ending.hangs
      → (o ≡ some Lookup.null) × IsRefused m
  unfolding receive offered
  main_second m none h = absurd (answered m (sym (main_alone m) ∙ h))
  main_second m (some (Lookup.refused e)) h = absurd (answered m (sym (main_alone m) ∙ h))
  main_second m (some Lookup.null) h = let (e, r) = waits_for_error m h in (refl, (e, r))
  main_second m (some (Lookup.result b)) h = absurd (cc)
  main_second m (some Lookup.panics) h = absurd (cc)
  main_second m (some Lookup.out_of_fuel) h = absurd (cc)

  -- Whatever the node and the database answer, the handler of a hash never comes to an end just
  -- where the block of the database's hash is unknown, its request is received first, and the
  -- node's request is then refused.
  pub request_hangs_iff :
      (main_first : Bool) (hash : Text)
      → (request_get_block_by_hash request database main_first hash ≡ Ending.hangs)
        ↔ ((main_first ≡ false) × (second_of hash ≡ some Lookup.null) × IsRefused (main_of hash))
  unfolding request_get_block_by_hash receive wait_for_second offered
  request_hangs_iff true hash =
      (λ h. absurd (main_first-ends (main_of hash) (second_of hash) h), λ r. absurd (cc))
  request_hangs_iff false hash = (
    λ h. let (n, r) = main_second (main_of hash) (second_of hash) h in (refl, n, r),
    λ r. let (f, n, (e, m)) = r in rw (n, m) refl,
  )

  -- The database's answer, or where it has none the node's.
  abbrev pub make_good : Option (Lookup B) → Lookup B → Lookup B
  make_good none m = m
  make_good (some (Lookup.refused e)) m = m
  make_good (some (Lookup.result b)) m = Lookup.result b
  make_good (some Lookup.null) m = Lookup.null
  make_good (some Lookup.panics) m = Lookup.panics
  make_good (some Lookup.out_of_fuel) m = Lookup.out_of_fuel

  wait_for_second-made_good :
      (l : Lookup B) (o : Option (Lookup B))
      → wait_for_second l false (offered o ∷ []) ≡ Ending.answers (make_good o l)
  unfolding wait_for_second offered
  wait_for_second-made_good l none = refl
  wait_for_second-made_good l (some (Lookup.result b)) = refl
  wait_for_second-made_good l (some Lookup.null) = refl
  wait_for_second-made_good l (some (Lookup.refused e)) = refl
  wait_for_second-made_good l (some Lookup.panics) = refl
  wait_for_second-made_good l (some Lookup.out_of_fuel) = refl

  second-made_good :
      (m : Lookup B) (o : Option (Lookup B))
      → (m ≡ Lookup.null) ⊎ (o ≢ some Lookup.null)
      → receive false (offered o ∷ Delivery.main m ∷ []) ≡ Ending.answers (make_good o m)
  unfolding receive wait_for_second offered
  second-made_good m none h = main_alone m
  second-made_good m (some (Lookup.refused e)) h = main_alone m
  second-made_good m (some (Lookup.result b)) h = refl
  second-made_good m (some Lookup.panics) h = refl
  second-made_good m (some Lookup.out_of_fuel) h = refl
  second-made_good m (some Lookup.null) (inl e) = rw e refl
  second-made_good m (some Lookup.null) (inr f) = absurd (f refl)

  first-made_good :
      (m : Lookup B) (o : Option (Lookup B))
      → (m ≡ Lookup.null) ⊎ IsRefused m
      → receive false (Delivery.main m ∷ offered o ∷ []) ≡ Ending.answers (make_good o m)
  unfolding receive
  first-made_good m o (inl e) = rw e (wait_for_second-made_good Lookup.null o)
  first-made_good m o (inr (e, r)) = rw r (wait_for_second-made_good (Lookup.refused e) o)

  -- Where the node's request finds no block or is refused, and if it is refused the database's does
  -- not find none, then in either order the handler answers what the database's request answers; or
  -- what the node's does, if the database gives no block's hash or its request is refused as well.
  pub request_made_good :
      (main_first : Bool) (hash : Text)
      → (main_of hash ≡ Lookup.null) ⊎ IsRefused (main_of hash)
      → (main_of hash ≡ Lookup.null) ⊎ (second_of hash ≢ some Lookup.null)
      → request_get_block_by_hash request database main_first hash
        ≡ Ending.answers (make_good (second_of hash) (main_of hash))
  unfolding request_get_block_by_hash
  request_made_good true hash h k = first-made_good (main_of hash) (second_of hash) h
  request_made_good false hash h k = second-made_good (main_of hash) (second_of hash) k
