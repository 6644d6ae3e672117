-- ===== src/Clients/Added.antt =====
-- What the operations of a client list do to its clients and to the list of added clients.
use obnam.Prelude.{
  ℕ, ◌≡◌, sym, subst, ◌∙◌, true, false, Option, none, some, List, [], ◌∷◌, ◌++◌, arith, inl, inr,
}
use obnam.Prelude.Tests.{if◌then◌else◌, Bool-cases, Option-cases}
use obnam.Prelude.Lists.{All, All-append}
use obnam.Prelude.Keys.{◌==◌, nat_eq, list_eq, beq_refl, remove_first}
use obnam.Prelude.Dict.{get, put, del, has, get-put, get-del, has-get}
use obnam.Prelude.Sorted.{Distinct}
use obnam.Prelude.Result.{Result, ok, raise}
use obnam.Bag.ObjectId.{Text}
use obnam.Clients.ClientList.{
  Client, Error, Repository, ClientList, clear, clients_of, load_data, commit, get_client_names,
  pick_client_id, add_picked, add_client, without_added, remove_client, renamed, rename_client,
  set_client_encryption_key_id, client_or_key_error,
}
use obnam.Clients.Names.{
  remove_first-All, remove_first-Distinct, remove_first-gone, remove_first-if, has-put, has-del,
  fresh_name, known-put, known-del, snoc-Distinct,
}

-- a call of a client list's operation
pub data Call : Type 0 where
  adds : ℕ → Text → Call
  removes : Text → Call
  renames : Text → Text → Call
  sets_key : Text → Option Text → Call
  lists_names commits : Call

module _ {W : Type 0} (R : Repository W) where
  -- the client of a name
  abbrev pub client_at : ClientList W → Text → Option Client
  client_at cl n = get n (clients_of R cl)

  -- Renaming a client to a name that is free succeeds: the new name has the client's record, the old
  -- name has none, and every other name has what it had.
  pub client_at-rename_client :
      (cl : ClientList W) (a b : Text) (c : Client)
      → client_at cl a ≡ some c
      → client_at cl b ≡ none
      → ((rename_client R cl a b).0 ≡ ok tt)
        × ((n : Text)
            → client_at (rename_client R cl a b).1 n
              ≡ (if a == n then none else if b == n then some c else client_at cl n))
  unfolding rename_client clients_of
  client_at-rename_client cl a b c p q =
      let d = clients_of R cl in
      (
        ground (arith, p, q, has-get a d, has-get b d),
        λ n.
            ground
              (arith, p, q, has-get a d, has-get b d, get-put b n c d, get-del a n (put b c d)),
      )

  -- The added clients are distinct, and each is a client.
  pub record Tracked (cl : ClientList W) : Type 0 where
    pub distinct : Distinct cl.added_clients
    pub known : All (λ n. has n (clients_of R cl) ≡ true) cl.added_clients

  load_data-Tracked : (cl : ClientList W) → Tracked cl → Tracked (load_data R cl)
  unfolding load_data clients_of
  load_data-Tracked cl t = record { distinct = t.distinct; known = t.known }

  add_picked-Tracked :
      (cl : ClientList W) (a : Text) (r : Result Error ℕ × W)
      → has a (clients_of R cl) ≡ false
      → Tracked cl
      → Tracked (add_picked R cl a r).1
  unfolding add_picked load_data clients_of
  add_picked-Tracked cl a (raise e, w) q t = record { distinct = t.distinct; known = t.known }
  add_picked-Tracked cl a (ok i, w) q t =
      let d = clients_of R cl in
      let c : Client = record { encryption_key = none; client_id = i } in
      record {
        distinct =
            snoc-Distinct cl.added_clients a (fresh_name a d cl.added_clients q t.known) t.distinct;
        known =
            All-append (λ n. has n (put a c d) ≡ true) cl.added_clients (a ∷ [])
              (known-put a c d cl.added_clients t.known) (has-put a a c d ∙ rw (beq_refl a), tt);
      }

  -- a list without a name, which is no client any more
  remaining-Tracked :
      (cl : ClientList W) (a : Text)
      → Tracked cl
      → Tracked (record cl {
        clients = some (del a (clients_of R cl));
        added_clients = without_added R cl a;
        client_names = none;
      })
  unfolding clients_of
  remaining-Tracked cl a t =
      let xs = cl.added_clients in
      let d = clients_of R cl in
      let e = sym (remove_first-if a xs) in
      record {
        distinct = subst (λ l. Distinct l) e (remove_first-Distinct a xs t.distinct);
        known =
            subst (λ l. All (λ n. has n (del a d) ≡ true) l) e
              (known-del a d (remove_first a xs) (remove_first-gone a xs t.distinct)
                (remove_first-All (λ n. has n d ≡ true) a xs t.known));
      }

  renamed-Tracked :
      (cl : ClientList W) (a b : Text) (r : Result Error Client)
      → has a (clients_of R cl) ≡ true
      → has b (clients_of R cl) ≡ false
      → Tracked cl
      → Tracked (renamed R cl a b r).1
  unfolding renamed load_data clients_of
  renamed-Tracked cl a b (raise e) p q t = record { distinct = t.distinct; known = t.known }
  renamed-Tracked cl a b (ok c) p q t =
      let xs = cl.added_clients in
      let d = clients_of R cl in
      let e = sym (remove_first-if a xs) in
      let ne = (fresh_name b d (a ∷ []) q (p, tt)).0 in
      record {
        distinct =
            subst (λ l. Distinct (l ++ b ∷ [])) e
              (snoc-Distinct (remove_first a xs) b
                (remove_first-All (λ y. (y == b) ≡ false) a xs (fresh_name b d xs q t.known))
                (remove_first-Distinct a xs t.distinct));
        known =
            subst (λ l. All (λ n. has n (del a (put b c d)) ≡ true) (l ++ b ∷ [])) e
              (All-append (λ n. has n (del a (put b c d)) ≡ true) (remove_first a xs) (b ∷ [])
                (known-del a (put b c d) (remove_first a xs) (remove_first-gone a xs t.distinct) (
                  known-put b c d (remove_first a xs)
                    (remove_first-All (λ n. has n d ≡ true) a xs t.known)))
                (has-del a b (put b c d) ∙ rw ne (has-put b b c d ∙ rw (beq_refl b)), tt));
      }

  pub add_client-Tracked :
      (fuel : ℕ) (cl : ClientList W) (a : Text) → Tracked cl → Tracked (add_client R fuel cl a).1
  unfolding add_client
  add_client-Tracked fuel cl a t = elim (Bool-cases (has a (clients_of R cl))) [
    | inl q ↦ rw (q, add_client) (load_data-Tracked cl t)
    | inr q ↦ rw (q, add_client) (add_picked-Tracked cl a (pick_client_id R fuel cl.fs) q t)
  ]

  pub remove_client-Tracked :
      (cl : ClientList W) (a : Text) → Tracked cl → Tracked (remove_client R cl a).1
  unfolding remove_client
  remove_client-Tracked cl a t = elim (Bool-cases (has a (clients_of R cl))) [
    | inl q ↦ rw (q, remove_client) (remaining-Tracked cl a t)
    | inr q ↦ rw (q, remove_client) (load_data-Tracked cl t)
  ]

  pub rename_client-Tracked :
      (cl : ClientList W) (a b : Text) → Tracked cl → Tracked (rename_client R cl a b).1
  unfolding rename_client
  rename_client-Tracked cl a b t = elim (Bool-cases (has a (clients_of R cl))) [
    | inr p ↦ rw (p, rename_client) (load_data-Tracked cl t)
    | inl p ↦ elim (Bool-cases (has b (clients_of R cl))) [
      | inl q ↦ rw (p, rename_client, q) (load_data-Tracked cl t)
      | inr q ↦
          rw (p, rename_client, q)
            (renamed-Tracked cl a b (client_or_key_error R (get a (clients_of R cl))) p q t)
    ]
  ]

  set_key-Tracked :
      (cl : ClientList W) (a : Text) (key : Option Text)
      → Tracked cl
      → Tracked (set_client_encryption_key_id R cl a key).1
  unfolding set_client_encryption_key_id load_data clients_of
  set_key-Tracked cl a key t = elim (Option-cases (get a (clients_of R cl))) [
    | inl q ↦ rw (q, set_client_encryption_key_id) (load_data-Tracked cl t)
    | inr (c, q) ↦
        let c' : Client = record c { encryption_key = key } in
        rw (q, set_client_encryption_key_id)
          (record {
            distinct = t.distinct;
            known = known-put a c' (clients_of R cl) cl.added_clients t.known;
          })
  ]

  get_client_names-Tracked : (cl : ClientList W) → Tracked cl → Tracked (get_client_names R cl).1
  unfolding get_client_names load_data clients_of
  get_client_names-Tracked cl t = elim (Option-cases cl.client_names) [
    | inl q ↦ rw (q, get_client_names) (record { distinct = t.distinct; known = t.known })
    | inr (ns, q) ↦ rw (q, get_client_names) (load_data-Tracked cl t)
  ]

  commit-Tracked : (cl : ClientList W) → Tracked (commit R cl)
  unfolding commit
  commit-Tracked cl = record { distinct = tt; known = tt }

  -- one call after another, whether it succeeds or not
  unfoldable pub run : ClientList W → List Call → ClientList W
  unfolding add_client remove_client rename_client set_client_encryption_key_id get_client_names
      commit
  run cl [] = cl
  run cl (adds fuel a ∷ rest) = run (add_client R fuel cl a).1 rest
  run cl (removes a ∷ rest) = run (remove_client R cl a).1 rest
  run cl (renames a b ∷ rest) = run (rename_client R cl a b).1 rest
  run cl (sets_key a key ∷ rest) = run (set_client_encryption_key_id R cl a key).1 rest
  run cl (lists_names ∷ rest) = run (get_client_names R cl).1 rest
  run cl (commits ∷ rest) = run (commit R cl) rest

  stays-Tracked : (calls : List Call) (cl : ClientList W) → Tracked cl → Tracked (run cl calls)
  unfolding run
  stays-Tracked [] cl t = t
  stays-Tracked (adds fuel a ∷ rest) cl t =
      stays-Tracked rest (add_client R fuel cl a).1 (add_client-Tracked fuel cl a t)
  stays-Tracked (removes a ∷ rest) cl t =
      stays-Tracked rest (remove_client R cl a).1 (remove_client-Tracked cl a t)
  stays-Tracked (renames a b ∷ rest) cl t =
      stays-Tracked rest (rename_client R cl a b).1 (rename_client-Tracked cl a b t)
  stays-Tracked (sets_key a key ∷ rest) cl t =
      stays-Tracked rest (set_client_encryption_key_id R cl a key).1 (set_key-Tracked cl a key t)
  stays-Tracked (lists_names ∷ rest) cl t =
      stays-Tracked rest (get_client_names R cl).1 (get_client_names-Tracked cl t)
  stays-Tracked (commits ∷ rest) cl t = stays-Tracked rest (commit R cl) (commit-Tracked cl)

  -- After any calls on a cleared list, successful or not, the added clients, for which the next
  -- commit calls its hook, are distinct, and each of them is a client.
  pub run-Tracked : (cl : ClientList W) (calls : List Call) → Tracked (run (clear cl) calls)
  run-Tracked cl calls = stays-Tracked calls (clear cl) (record { distinct = tt; known = tt })
