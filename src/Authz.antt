-- ===== src/Authz.antt =====
-- pkg/authz: the permission of an IP address, from the rows of the allow list table.
use xmtp_node_go.Base.{
  All, Bool, Bytes, List, Option, [], ap, arith, codes, empty, get_or, if◌then◌else◌, insert, none,
  not, refl, some, ◌&&◌, ◌++◌, ◌==◌, ◌∙◌, ◌∷◌, ◌≡◌, nat_eq, bytes_eq,
}

pub data Permission : Type 0 where
  unspecified allow_all priority denied : Permission

-- A row of the table; a deleted row is not selected.
pub record IpAddress : Type 0 where
  pub ip_address : Bytes
  pub permission : Bytes
  pub is_deleted : Bool

pub permission_from_string : Bytes → Permission
permission_from_string permission =
    if permission == codes "allow_all"
    then allow_all
    else if permission == codes "priority"
    then priority
    else if permission == codes "denied"
    then denied
    else unspecified

load_rows : List IpAddress → (Bytes → Option Permission) → Bytes → Option Permission
load_rows [] m = m
load_rows (row ∷ rows) m =
    load_rows rows (
      if row.is_deleted then m else insert row.ip_address (permission_from_string row.permission) m)

-- `loadPermissions` builds a new map and replaces the old one; `none` is a failed query.
pub load_permissions :
    Option (List IpAddress) → (Bytes → Option Permission) → Bytes → Option Permission
unfolding load_rows
load_permissions none m = m
load_permissions (some rows) m = load_rows rows empty

pub get_permission : (Bytes → Option Permission) → Bytes → Permission
get_permission permissions ip = get_or permissions ip unspecified

-- The ticks of listenForChanges, and the load of start before them.
pub listen_for_changes :
    List (Option (List IpAddress)) → (Bytes → Option Permission) → Bytes → Option Permission
unfolding load_permissions
listen_for_changes [] m = m
listen_for_changes (table ∷ tables) m = listen_for_changes tables (load_permissions table m)

abbrev live_row : Bytes → IpAddress → Bool
live_row ip row = not row.is_deleted && row.ip_address == ip

-- The permission of the last live row of an address.
pub last_permission : List IpAddress → Bytes → Permission → Permission
last_permission [] ip p = p
last_permission (row ∷ rows) ip p =
    last_permission rows ip (if live_row ip row then permission_from_string row.permission else p)

load_rows-last :
    (rows : List IpAddress) (m : Bytes → Option Permission) (ip : Bytes)
    → get_permission (load_rows rows m) ip ≡ last_permission rows ip (get_permission m ip)
unfolding load_rows last_permission get_permission
load_rows-last [] m ip = refl
load_rows-last (row ∷ rows) m ip =
    load_rows-last rows _ ip ∙ ap (last_permission rows ip) (ground arith)

-- After a refresh an address has the permission of its last live row, or none if it has no live row;
-- nothing of the map before the refresh is left.
pub load_permissions-last :
    (rows : List IpAddress) (m : Bytes → Option Permission) (ip : Bytes)
    → get_permission (load_permissions (some rows) m) ip ≡ last_permission rows ip unspecified
unfolding load_permissions get_permission
load_permissions-last rows m ip = load_rows-last rows empty ip

listen-failed :
    (tables : List (Option (List IpAddress))) (m : Bytes → Option Permission)
    → All (λ table. table ≡ none) tables
    → listen_for_changes tables m ≡ m
unfolding listen_for_changes load_permissions
listen-failed [] m h = refl
listen-failed (table ∷ tables) m h =
    ap (λ o. listen_for_changes tables (load_permissions o m)) (h.0) ∙ listen-failed tables m h.1

-- Whatever was read before it, the last table that could be read gives the permissions, until one can
-- be read again.
listen_for_changes-last :
    (before after : List (Option (List IpAddress))) (rows : List IpAddress)
    (m : Bytes → Option Permission) (ip : Bytes)
    → All (λ table. table ≡ none) after
    → get_permission (listen_for_changes (before ++ some rows ∷ after) m) ip
      ≡ last_permission rows ip unspecified
unfolding listen_for_changes
listen_for_changes-last [] after rows m ip h =
    ap (λ f. get_permission f ip) (listen-failed after (load_permissions (some rows) m) h)
    ∙ load_permissions-last rows m ip
listen_for_changes-last (table ∷ before) after rows m ip h =
    listen_for_changes-last before after rows (load_permissions table m) ip h
