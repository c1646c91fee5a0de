-- ===== src/Server/Accounts/Registration.antt =====
-- What a registration adds, and what it refuses.
use upmessenger.Base.{
  ℕ, ◌≡◌, refl, ◌∙◌, Bool, true, false, ◌&&◌, none, some, List, [], ◌∷◌, ◌++◌, arith, Text, str_eq,
  str_eq_refl, ok, err, find_first, find_first-append,
}
use upmessenger.Server.{Database, User, Device, DbError, username_taken, transaction}
use upmessenger.Server.Accounts.{
  active, RegisteredAccount, insert_user, insert_device, new_user, new_device, user_normalized,
  device_of, is_listed, resolve_where, register_account, resolve_username,
}

find_first-join :
    (d : Device) (name : Text) (xs : List User) (u : User)
    → find_first (user_normalized name) xs ≡ none
    → str_eq d.user_id u.user_id ≡ false
    → find_first
        (λ x. str_eq d.user_id x.user_id && (user_normalized name x && is_listed x))
        (xs ++ (u ∷ []))
      ≡ none
find_first-join d name [] u h other = rw other
find_first-join d name (x ∷ xs) u h other = ground (arith, find_first-join d name xs u)

find_first-and :
    (user name : Text) (xs : List User)
    → find_first (user_normalized name) xs ≡ none
    → find_first (λ u. str_eq user u.user_id && (user_normalized name u && is_listed u)) xs ≡ none
find_first-and user name [] h = refl
find_first-and user name (x ∷ xs) h =
    let later : find_first (user_normalized name) xs ≡ none = ground arith in
    ground (arith, find_first-and user name xs later)

resolve_where-skip :
    (test : User → Bool) (users : List User) (d : Device) (ds : List Device)
    → find_first (λ u. str_eq d.user_id u.user_id && test u) users ≡ none
    → resolve_where test users (d ∷ ds) ≡ resolve_where test users ds
unfolding resolve_where
resolve_where-skip test users d ds h = rw (resolve_where, h)

resolve_where-here :
    (test : User → Bool) (users : List User) (d : Device) (ds : List Device) (u : User)
    → find_first (λ x. str_eq d.user_id x.user_id && test x) users ≡ some u
    → resolve_where test users (d ∷ ds)
      ≡ some (record {
        upm_id = u.upm_id;
        username = u.username;
        device_id = d.device_id;
        identity_public_key = d.identity_public_key;
      })
unfolding resolve_where
resolve_where-here test users d ds u h = rw (resolve_where, h)

module _ (to_lowercase : Text → Text) (ids : RegisteredAccount) (now : ℕ) (name key : Text)
    (db : Database) where
  -- The tables with the rows of the new account.
  registered : Database
  registered = record db {
    users = db.users ++ (new_user ids name (to_lowercase name) now ∷ []);
    devices = db.devices ++ (new_device ids key ∷ []);
  }

  -- A registration that fails leaves the database as it was.
  pub register_account-err :
      (e : DbError)
      → (register_account to_lowercase ids now name key db).0 ≡ err e
      → (register_account to_lowercase ids now name key db).1 ≡ db
  unfolding register_account transaction insert_user insert_device
  register_account-err e h = ground arith

  register_account-ok :
      (r : RegisteredAccount)
      → (register_account to_lowercase ids now name key db).0 ≡ ok r
      → (find_first (user_normalized (to_lowercase name)) db.users ≡ none)
        × (register_account to_lowercase ids now name key db ≡ (ok ids, registered))
  unfolding register_account transaction insert_user insert_device registered
  register_account-ok r h = (ground arith, ground arith)

  -- After a registration that succeeds, a registration of a name with the same lower-case form is
  -- refused as taken, whatever its other arguments.
  pub register_account_taken :
      (r ids' : RegisteredAccount) (now' : ℕ) (name' key' : Text)
      → (register_account to_lowercase ids now name key db).0 ≡ ok r
      → to_lowercase name' ≡ to_lowercase name
      → (register_account to_lowercase ids' now' name' key'
          (register_account to_lowercase ids now name key db).1).0
        ≡ err username_taken
  unfolding registered register_account
  register_account_taken r ids' now' name' key' h same =
      let (fresh, e) = register_account-ok r h in
      let found : find_first (user_normalized (to_lowercase name')) registered.users
          ≡ some (new_user ids name (to_lowercase name) now) =
        rw same (
          find_first-append (user_normalized (to_lowercase name)) db.users
            (new_user ids name (to_lowercase name) now) fresh (str_eq_refl (to_lowercase name))) in
      rw (e, register_account, found)

  module _ (r : RegisteredAccount)
      (h : (register_account to_lowercase ids now name key db).0 ≡ ok r) where
    -- The devices of other users do not resolve to the new name.
    resolve_where-others :
        (ds : List Device)
        → find_first (device_of ids.user_id) ds ≡ none
        → resolve_where
            (λ u. user_normalized (to_lowercase name) u && is_listed u)
            registered.users
            (ds ++ (new_device ids key ∷ []))
          ≡ resolve_where
              (λ u. user_normalized (to_lowercase name) u && is_listed u)
              registered.users
              (new_device ids key ∷ [])
    unfolding registered
    resolve_where-others [] unused = refl
    resolve_where-others (d ∷ ds) unused =
        let other : str_eq d.user_id ids.user_id ≡ false = ground arith in
        let later : find_first (device_of ids.user_id) ds ≡ none = ground arith in
        let (fresh, e) = register_account-ok r h in
        let missed =
          find_first-join d (to_lowercase name) db.users (new_user ids name (to_lowercase name) now)
            fresh other in
        resolve_where-skip _ registered.users d (ds ++ (new_device ids key ∷ [])) missed
        ∙ resolve_where-others ds later

    -- The new device resolves to the new account.
    resolve_where-new :
        resolve_where
          (λ u. user_normalized (to_lowercase name) u && is_listed u)
          registered.users
          (new_device ids key ∷ [])
        ≡ some (record {
          upm_id = ids.upm_id;
          username = name;
          device_id = ids.device_id;
          identity_public_key = key;
        })
    unfolding registered is_listed
    resolve_where-new =
        let (fresh, e) = register_account-ok r h in
        let test : User → Bool = λ u.
          str_eq ids.user_id u.user_id && (user_normalized (to_lowercase name) u && is_listed u) in
        let none_before : find_first test db.users ≡ none =
          find_first-and ids.user_id (to_lowercase name) db.users fresh in
        let u : User = new_user ids name (to_lowercase name) now in
        let hit : test u ≡ true =
          rw (str_eq_refl ids.user_id, str_eq_refl (to_lowercase name), str_eq_refl active) in
        resolve_where-here _ registered.users (new_device ids key) [] u
          (find_first-append test db.users u none_before hit)

    -- After a registration that succeeds, every name with the same lower-case form resolves to the new
    -- account and its device, where no device row names the new user identifier already.
    pub resolve_username-register :
        (name' : Text)
        → to_lowercase name' ≡ to_lowercase name
        → find_first (device_of ids.user_id) db.devices ≡ none
        → (resolve_username to_lowercase name'
            (register_account to_lowercase ids now name key db).1).0
          ≡ ok (
              some (record {
                upm_id = ids.upm_id;
                username = name;
                device_id = ids.device_id;
                identity_public_key = key;
              }))
    unfolding resolve_username registered
    resolve_username-register name' same unused =
        let (fresh, e) = register_account-ok r h in
        let found = resolve_where-others db.devices unused ∙ resolve_where-new in
        rw (e, resolve_username, same, found)
