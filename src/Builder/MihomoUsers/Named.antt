-- ===== src/Builder/MihomoUsers/Named.antt =====
-- The passwords of named users.
use multi_proxy_panel.Prelude.{
  ◌≡◌, refl, ap, subst, ◌∙◌, String, str_eq, false, not, ◌&&◌, Option, none, some, [], ◌∷◌,
  if◌then◌else◌, Bool-cases, inl, inr, eq_iff,
}
use multi_proxy_panel.Prelude.Text.{is_empty}
use multi_proxy_panel.Json.{
  Value, text, Items, no_items, item, Fields, no_fields, get_field, put_field, get,
  get_field-put_field, get_field-put_field-apart, as_array,
}
use multi_proxy_panel.Settings.{or_else, or_else-none}
use multi_proxy_panel.Builder.MihomoUsers.{
  setting_or, insert_user, insert_users, user_key, password_users,
}

abbrev pub name_of : Value → String
name_of c = setting_or ("name" ∷ "email" ∷ []) "" c

abbrev pub password_of : Value → String
password_of c = setting_or ("password" ∷ []) "" c

-- Every client that has a password has a name or an email too.
abbrev pub AreNamed : Items → Type 0
AreNamed no_items = Unit
AreNamed (item c cs) = (is_empty (name_of c) ≡ false) × AreNamed cs

-- The password of the last client of this name that has one.
abbrev pub last_password : String → Items → Option Value
last_password name no_items = none
last_password name (item c cs) = or_else (last_password name cs) (
    if str_eq (name_of c) name && not (is_empty (password_of c))
    then some (text (password_of c))
    else none)

or_else_assoc : {A : Type 0} (a b c : Option A) → or_else a (or_else b c) ≡ or_else (or_else a b) c
or_else_assoc (some x) b c = refl
or_else_assoc none b c = refl

one_user :
    (name : String) (c : Value) (map : Fields)
    → is_empty (name_of c) ≡ false
    → get_field name (insert_user c map)
      ≡ or_else
          (if str_eq (name_of c) name && not (is_empty (password_of c))
            then some (text (password_of c))
            else none)
          (get_field name map)
unfolding insert_user user_key
one_user name c map named = elim (Bool-cases (is_empty (password_of c))) [
  | inl e ↦ elim (Bool-cases (str_eq (name_of c) name)) [
    | inl s ↦ rw (e, s) refl
    | inr d ↦ rw (e, d) refl
  ]
  | inr p ↦ elim (Bool-cases (str_eq (name_of c) name)) [
    | inl s ↦
        rw (p, named, s)
          (subst
            (λ k.
              get_field k (put_field (name_of c) (text (password_of c)) map)
              ≡ some (text (password_of c)))
            ((eq_iff (name_of c) name).0 s)
            (get_field-put_field (name_of c) (text (password_of c)) map))
    | inr d ↦
        rw (p, named, d) (get_field-put_field-apart name (name_of c) (text (password_of c)) map d)
  ]
]

insert_users-last :
    (name : String) (cs : Items) (map : Fields)
    → AreNamed cs
    → get_field name (insert_users cs map) ≡ or_else (last_password name cs) (get_field name map)
unfolding insert_users
insert_users-last name no_items map h = refl
insert_users-last name (item c cs) map h =
    insert_users-last name cs (insert_user c map) h.1
    ∙ ap (or_else (last_password name cs)) (one_user name c map h.0)
    ∙ or_else_assoc (last_password name cs) _ (get_field name map)

-- Where every client has a name or an email, the password of a user of a mihomo listener is that of
-- the last client of this name that has one.
pub password_users-last :
    (settings : Value) (clients : Items) (name : String)
    → as_array (get "clients" settings) ≡ some clients
    → AreNamed clients
    → get name (password_users settings) ≡ last_password name clients
unfolding password_users get
password_users-last settings clients name e h =
    rw e (insert_users-last name clients no_fields h ∙ or_else-none (last_password name clients))
