-- ===== src/Clients/ClientList.antt =====
-- obnamlib/fmt_ga/client_list.py: `GAClientList`. The data of a list that is not loaded is `none`, and
-- loading reads it through a parameter: the well known blob 'root' of the list's directory,
-- decoded. Making a client's directory, random numbers, and the hook that `commit` calls, which may
-- set the new client's key, are operations of the same parameter.
use obnam.Prelude.{ℕ, zero, suc, Option, none, some, List, [], ◌∷◌, ◌++◌}
use obnam.Prelude.Tests.{if◌then◌else◌}
use obnam.Prelude.Keys.{nat_eq, list_eq, contains, remove_first}
use obnam.Prelude.Dict.{Dict, keys, get, put, del, has}
use obnam.Prelude.Result.{Result, ok, raise}
use obnam.Bag.ObjectId.{Text}

pub record Client : Type 0 where
  pub encryption_key : Option Text
  pub client_id : ℕ

pub data Error : Type 0 where
  client_does_not_exist client_already_exists : Text → Error
  os_error out_of_fuel key_error : Error

-- what `create_and_init_toplevel` does: the directory is made, or is there, or cannot be made
pub data Created (W : Type 0) : Type 0 where
  made : W → Created W
  exists failed : Created W

pub record Repository (W : Type 0) : Type 0 where
  pub read : W → Option (Dict Text Client)
  pub write : W → Dict Text Client → W
  pub randint : W → ℕ × W
  pub create_toplevel : W → ℕ → Created W
  pub client_added : W → Dict Text Client → Text → W × Dict Text Client

pub record ClientList (W : Type 0) : Type 0 where
  pub fs : W
  pub clients : Option (Dict Text Client)
  pub added_clients : List Text
  pub client_names : Option (List Text)

-- `self._data`: no clients where nothing was stored
abbrev pub or_empty : Option (Dict Text Client) → Dict Text Client
or_empty none = []
or_empty (some d) = d

module _ {W : Type 0} where
  -- `clear`
  abbrev pub clear : ClientList W → ClientList W
  clear cl = record { fs = cl.fs; clients = none; added_clients = []; client_names = none }

  -- the data with new clients, and the cache of names cleared
  abbrev pub with_clients : ClientList W → Dict Text Client → ClientList W
  with_clients cl d = record cl { clients = some d; client_names = none }

module _ {W : Type 0} (R : Repository W) where
  -- the clients, from the data or, if it is not loaded, from the repository
  unfoldable pub clients_of : ClientList W → Dict Text Client
  clients_of cl = elim cl.clients [ some d ↦ d | none ↦ or_empty (R.read cl.fs) ]

  unfoldable pub load_data : ClientList W → ClientList W
  unfolding clients_of
  load_data cl = record cl { clients = some (clients_of cl) }

  -- the loop of `commit` over the added clients
  unfoldable pub call_hooks : W → Dict Text Client → List Text → W × Dict Text Client
  call_hooks w d [] = (w, d)
  call_hooks w d (client_name ∷ rest) =
      let (w', d') = R.client_added w d client_name in call_hooks w' d' rest

  unfoldable pub commit : ClientList W → ClientList W
  unfolding clients_of call_hooks
  commit cl =
      let (w, d) = call_hooks cl.fs (clients_of cl) cl.added_clients in
      record cl { fs = R.write w d; clients = some d; added_clients = [] }

  -- `none` in the cache: the names are listed anew
  unfoldable pub get_client_names : ClientList W → List Text × ClientList W
  unfolding load_data
  get_client_names cl = elim cl.client_names [
    | some names ↦ (names, load_data cl)
    | none ↦
        (keys (clients_of cl), record (load_data cl) { client_names = some (keys (clients_of cl)) })
  ]

  -- The loop of `_pick_client_id`; the fuel is the number of candidates that are tried.
  unfoldable pub pick_client_id : ℕ → W → Result Error ℕ × W
  pick_client_id zero w = (raise out_of_fuel, w)
  pick_client_id (suc fuel) w =
      let (candidate_id, w1) = R.randint w in
      let again = pick_client_id fuel w1 in
      elim (R.create_toplevel w1 candidate_id) [
        | made w2 ↦ (ok candidate_id, w2)
        | exists ↦ again
        | failed ↦ (raise os_error, w1)
      ]

  -- `add_client` once an identifier was picked
  unfoldable pub add_picked :
      ClientList W → Text → Result Error ℕ × W → Result Error Unit × ClientList W
  unfolding load_data
  add_picked cl client_name (raise e, w) = (raise e, record (load_data cl) { fs = w })
  add_picked cl client_name (ok client_id, w) =
      let client : Client = record { encryption_key = none; client_id = client_id } in
      (
        ok tt,
        record {
          fs = w;
          clients = some (put client_name client (clients_of cl));
          added_clients = cl.added_clients ++ client_name ∷ [];
          client_names = none;
        },
      )

  unfoldable pub add_client : ℕ → ClientList W → Text → Result Error Unit × ClientList W
  unfolding add_picked pick_client_id
  add_client fuel cl client_name =
      if has client_name (clients_of cl)
      then (raise (client_already_exists client_name), load_data cl)
      else add_picked cl client_name (pick_client_id fuel cl.fs)

  abbrev pub without_added : ClientList W → Text → List Text
  without_added cl client_name =
      if contains cl.added_clients client_name
      then remove_first client_name cl.added_clients
      else cl.added_clients

  unfoldable pub remove_client : ClientList W → Text → Result Error Unit × ClientList W
  unfolding load_data
  remove_client cl client_name =
      let d = clients_of cl in
      if has client_name d
      then (
        ok tt,
        record cl {
          clients = some (del client_name d);
          added_clients = without_added cl client_name;
          client_names = none;
        },
      )
      else (raise (client_does_not_exist client_name), load_data cl)

  abbrev pub client_or_key_error : Option Client → Result Error Client
  client_or_key_error none = raise key_error
  client_or_key_error (some c) = ok c

  -- `clients[new] = clients[old]; del clients[old]`
  unfoldable pub renamed :
      ClientList W → Text → Text → Result Error Client → Result Error Unit × ClientList W
  unfolding load_data
  renamed cl old_client_name new_client_name (raise e) = (raise e, load_data cl)
  renamed cl old_client_name new_client_name (ok c) = (
    ok tt,
    record cl {
      clients = some (del old_client_name (put new_client_name c (clients_of cl)));
      added_clients = without_added cl old_client_name ++ new_client_name ∷ [];
      client_names = none;
    },
  )

  unfoldable pub rename_client : ClientList W → Text → Text → Result Error Unit × ClientList W
  unfolding renamed
  rename_client cl old_client_name new_client_name =
      let d = clients_of cl in
      if has old_client_name d
      then if has new_client_name d
        then (raise (client_already_exists new_client_name), load_data cl)
        else renamed cl old_client_name new_client_name
            (client_or_key_error (get old_client_name d))
      else (raise (client_does_not_exist old_client_name), load_data cl)

  unfoldable pub get_client_encryption_key_id :
      ClientList W → Text → Result Error (Option Text) × ClientList W
  unfolding load_data
  get_client_encryption_key_id cl client_name = elim (get client_name (clients_of cl)) [
    | none ↦ (raise (client_does_not_exist client_name), load_data cl)
    | some c ↦ (ok c.encryption_key, load_data cl)
  ]

  unfoldable pub set_client_encryption_key_id :
      ClientList W → Text → Option Text → Result Error Unit × ClientList W
  unfolding load_data
  set_client_encryption_key_id cl client_name encryption_key =
      elim (get client_name (clients_of cl)) [
        | none ↦ (raise (client_does_not_exist client_name), load_data cl)
        | some c ↦ (
          ok tt,
          record (load_data cl) {
            clients =
                some
                  (put client_name (record c { encryption_key = encryption_key }) (clients_of cl));
          },
        )
      ]
