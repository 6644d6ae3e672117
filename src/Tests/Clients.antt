-- ===== src/Tests/Clients.antt =====
-- A client list of obnamlib/fmt_ga/client_list.py over a repository whose identifiers count up.
use obnam.Prelude.{ℕ, ◌+◌, ◌≡◌, refl, Option, none, some, [], ◌∷◌}
use obnam.Prelude.Tests.{if◌then◌else◌}
use obnam.Prelude.Keys.{◌==◌, nat_eq, list_eq}
use obnam.Prelude.Dict.{Dict, get, put}
use obnam.Prelude.Result.{ok}
use obnam.Bag.ObjectId.{Text}
use obnam.Clients.ClientList.{
  Client, made, Repository, ClientList, clear, clients_of, rename_client,
}
use obnam.Clients.Added.{
  client_at, client_at-rename_client, adds, renames, run, Tracked, run-Tracked,
}

-- what is stored, and the next identifier
record Disk : Type 0 where
  root : Option (Dict Text Client)
  next : ℕ

abbrev keyed : Client → Client
keyed c = record c { encryption_key = some (b'K' ∷ []) }

-- the hook gives an added client its key
abbrev give_key : Disk → Dict Text Client → Text → Disk × Dict Text Client
give_key w d a = (w, elim (get a d) [ none ↦ d | some c ↦ put a (keyed c) d ])

abbrev disk : Repository Disk
disk = record {
  read = λ w. w.root;
  write = λ w d. record w { root = some d };
  randint = λ w. (w.next, record w { next = w.next + 1 });
  create_toplevel = λ w i. made w;
  client_added = give_key;
}

abbrev ann : Text
ann = b'a' ∷ []

abbrev bob : Text
bob = b'b' ∷ []

abbrev ann_client : Client
ann_client = record { encryption_key = none; client_id = 3 }

abbrev clients : ClientList Disk
clients = record {
  fs = record { root = some ((ann, ann_client) ∷ []); next = 7 };
  clients = none;
  added_clients = [];
  client_names = none;
}

client_at-rename_client_example :
    ((rename_client disk clients ann bob).0 ≡ ok tt)
    × ((n : Text)
        → client_at disk (rename_client disk clients ann bob).1 n ≡ (
            if ann == n
            then none
            else if bob == n
            then some ann_client
            else client_at disk clients n))
client_at-rename_client_example =
    client_at-rename_client disk clients ann bob ann_client (unfold clients_of get in refl)
      (unfold clients_of get in refl)

run-Tracked_example :
    Tracked disk (run disk (clear clients) (adds 1 bob ∷ renames bob (b'c' ∷ []) ∷ []))
run-Tracked_example = run-Tracked disk clients (adds 1 bob ∷ renames bob (b'c' ∷ []) ∷ [])
