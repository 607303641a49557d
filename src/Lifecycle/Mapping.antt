-- ===== src/Lifecycle/Mapping.antt =====
-- internal/lifecycle/mapping.go: which product, and which release cycles of it, an installed package
-- is. The regular expressions are matched by a library: `find pattern text` is the text matched and
-- the texts of the groups, or `none`.
pub mod Laws
use defendsec.Prelude.{
  ℕ, zero, suc, Bool, true, false, not, ◌&&◌, ◌||◌, Option, none, some, List, [], ◌∷◌, ◌++◌, ◌==◌,
  ltb, if◌then◌else◌, length, get_elem?, get_or, take, drop, String,
}
use defendsec.Prelude.Cmp.{lex}
use defendsec.Prelude.Sort.{sort_by, add_name}
use defendsec.Prelude.Text.{
  Bytes, codes, is_empty, eq_bytes, to_lower, trim_space, is_digit, split_first,
}
use defendsec.Lifecycle.{split_at}

-- What the mapping says an installed package is: the cycles to look for come most specific first.
pub record Match : Type 0 where
  pub product : Bytes
  pub cycles : List Bytes

-- Where the cycle is read from: the groups of the name's pattern, or the version and how many of its
-- parts count.
pub data CycleFrom : Type 0 where
  from_name : (List Bytes → Bytes) → CycleFrom
  from_version : ℕ → CycleFrom

pub record Rule : Type 0 where
  pub product : Bytes
  pub manager : Bytes
  pub name : Bytes
  pub cycle_from : CycleFrom

abbrev rule_row : String → Bytes → String → CycleFrom → Rule
rule_row product manager name cycle_from = record {
  product = codes product;
  manager = manager;
  name = codes name;
  cycle_from = cycle_from;
}

abbrev pub from_group : List Bytes → Bytes
from_group m = get_or m 1 []

-- The digits of a name of PostgreSQL: before version 10 the last one is the minor version.
unfoldable pub pg_cycle : List Bytes → Bytes
pg_cycle m =
    let d = get_or m 1 [] in
    if length d == 2 && get_or d 0 0 == b'9' then codes "9." ++ drop 1 d else d

abbrev pub join_groups : Bytes → List Bytes → Bytes
join_groups sep m = get_or m 1 [] ++ (sep ++ get_or m 2 [])

abbrev pub python_cycle : List Bytes → Bytes
python_cycle m = codes "3." ++ get_or m 1 []

abbrev pub sql_server_cycles : List (Bytes × Bytes)
sql_server_cycles =
    (codes "2008", codes "10.0")
    ∷ (codes "2008 r2", codes "10.50")
    ∷ (codes "2012", codes "11.0")
    ∷ (codes "2014", codes "12.0")
    ∷ (codes "2016", codes "13.0")
    ∷ (codes "2017", codes "14.0")
    ∷ (codes "2019", codes "15.0")
    ∷ (codes "2022", codes "16.0")
    ∷ (codes "2025", codes "17.0")
    ∷ []

-- The value under a key, and the empty text without one.
unfoldable pub value_of : Bytes → List (Bytes × Bytes) → Bytes
unfolding eq_bytes
value_of key [] = []
value_of key ((k, v) ∷ rest) = if eq_bytes k key then v else value_of key rest

unfoldable pub sql_server_cycle : List Bytes → Bytes
unfolding value_of to_lower
sql_server_cycle m = value_of (to_lower (get_or m 1 [])) sql_server_cycles

abbrev pub rules : List Rule
rules =
    rule_row "php" (codes "dpkg") "^(?:libapache2-mod-|lib)?php(\\d+\\.\\d+)(?:-.+)?$"
      (from_name from_group)
    ∷ rule_row "php" (codes "rpm") "^php(\\d)(\\d)-php(?:-.+)?$"
        (from_name (join_groups (codes ".")))
    ∷ rule_row "php" (codes "rpm") "^php(?:-cli|-fpm|-cgi|-common)?$" (from_version 2)
    ∷ rule_row "nodejs" ([]) "^nodejs$" (from_version 1)
    ∷ rule_row "python" (codes "dpkg")
        "^(?:lib)?python(3\\.\\d+)(?:-(?:minimal|stdlib|venv|dev|dbg|full|distutils|lib2to3|tk|gdbm|doc|examples|nopie))?$"
        (from_name from_group)
    ∷ rule_row "python" (codes "rpm") "^python(3\\.\\d+)(?:-.+)?$" (from_name from_group)
    ∷ rule_row "python" (codes "rpm") "^python3(\\d{1,2})(?:-.+)?$" (from_name python_cycle)
    ∷ rule_row "postgresql" (codes "dpkg") "^postgresql-(\\d+(?:\\.\\d+)?)$" (from_name from_group)
    ∷ rule_row "postgresql" (codes "rpm") "^postgresql(\\d{2,3})(?:-server)?$" (from_name pg_cycle)
    ∷ rule_row "mysql" ([]) "^mysql-community-server$" (from_version 2)
    ∷ rule_row "mysql" ([]) "^mysql-server$" (from_version 2)
    ∷ rule_row "mysql" (codes "dpkg") "^mysql-server(?:-core)?-(\\d+\\.\\d+)$"
        (from_name from_group)
    ∷ rule_row "mariadb" ([]) "^(?i:mariadb)-server$" (from_version 2)
    ∷ rule_row "mariadb" (codes "dpkg") "^mariadb-server(?:-core)?-(\\d+\\.\\d+)$"
        (from_name from_group)
    ∷ rule_row "nginx" ([]) "^nginx$" (from_version 2)
    ∷ rule_row "apache-http-server" (codes "dpkg") "^apache2$" (from_version 2)
    ∷ rule_row "apache-http-server" (codes "rpm") "^httpd$" (from_version 2)
    ∷ rule_row "redis" ([]) "^redis(?:-server)?$" (from_version 2)
    ∷ rule_row "mongodb" ([]) "^mongodb-(?:org|org-server|org-mongos|enterprise-server)$"
        (from_version 2)
    ∷ rule_row "dotnet" ([])
        "^(?:dotnet-sdk|dotnet-runtime|aspnetcore-runtime|dotnet-hostfxr)-(\\d+\\.\\d+)$"
        (from_name from_group)
    ∷ rule_row "eclipse-temurin" ([]) "^temurin-(\\d+)-(?:jdk|jre)(?:-headless)?$"
        (from_name from_group)
    ∷ rule_row "amazon-corretto" ([]) "^java-(\\d+)-amazon-corretto(?:-.+)?$" (from_name from_group)
    ∷ rule_row "amazon-corretto" ([]) "^amazon-corretto-(\\d+)(?:-.+)?$" (from_name from_group)
    ∷ rule_row "microsoft-build-of-openjdk" ([]) "^msopenjdk-(\\d+)$" (from_name from_group)
    ∷ rule_row "dotnet" (codes "none")
        "^Microsoft (?:\\.NET (?:Runtime|SDK|Host FX Resolver|Windows Desktop Runtime|AspNetCore[^-]*Runtime)|Windows Desktop Runtime|ASP\\.NET Core) ?-? ?(\\d+\\.\\d+)\\.\\d+"
        (from_name from_group)
    ∷ rule_row "mssqlserver" (codes "none") "^Microsoft SQL Server (2008 R2|20\\d\\d)\\b"
        (from_name sql_server_cycle)
    ∷ rule_row "eclipse-temurin" (codes "none") "^Eclipse Temurin JDK with Hotspot (\\d+)\\."
        (from_name from_group)
    ∷ []

unfoldable pub product_set : List Rule → List Bytes
unfolding add_name
product_set [] = []
product_set (r ∷ rs) = add_name r.product (product_set rs)

-- Products: in the order of the texts.
unfoldable pub products : List Bytes
unfolding product_set sort_by
products = sort_by lex (product_set rules)

unfoldable pub manager_key : Bytes → Bytes
unfolding is_empty
manager_key manager = if is_empty manager then codes "none" else manager

unfoldable pub all_are_digits : Bytes → Bool
all_are_digits [] = true
all_are_digits (c ∷ s) = is_digit c && all_are_digits s

-- isDigits
unfoldable pub is_digits : Bytes → Bool
unfolding is_empty all_are_digits
is_digits s = if is_empty s then false else all_are_digits s

abbrev pub leading_version : Bytes
leading_version = codes "^(\\d+(?:\\.\\d+)*)"

-- The version behind an epoch, if it has one.
unfoldable pub without_epoch : Bytes → Bytes
unfolding split_first is_digits
without_epoch v = elim (split_first b':' v) [
  | none ↦ v
  | some (before, after) ↦ if is_digits before then after else v
]

unfoldable pub join_dots : List Bytes → Bytes
join_dots [] = []
join_dots (p ∷ []) = p
join_dots (p ∷ q ∷ ps) = p ++ b'.' ∷ join_dots (q ∷ ps)

-- The prefixes of the parts of up to `n` parts, longest first, joined.
unfoldable pub prefixes : ℕ → List Bytes → List Bytes
unfolding join_dots
prefixes zero parts = []
prefixes (suc n) parts = join_dots (take (suc n) parts) ∷ prefixes n parts

unfoldable pub cycle_candidates : Bytes → ℕ → List Bytes
unfolding split_at prefixes
cycle_candidates base max_parts =
    let all = split_at b'.' base in
    let parts = if ltb 0 max_parts && ltb max_parts (length all) then take max_parts all else all in
    prefixes (length parts) parts

-- Does the rule speak of hosts with this package manager?
unfoldable pub is_of_manager : Bytes → Rule → Bool
unfolding eq_bytes is_empty
is_of_manager key r =
    if is_empty r.manager then not (eq_bytes key (codes "none")) else eq_bytes r.manager key

module _ (find : Bytes → Bytes → Option (List Bytes)) where
  unfoldable pub upstream_version : Bytes → Bytes
  unfolding trim_space without_epoch
  upstream_version v = elim (find leading_version (without_epoch (trim_space v))) [
    | none ↦ []
    | some m ↦ get_or m 1 []
  ]

  abbrev pub base_of : CycleFrom → List Bytes → Bytes → Bytes × ℕ
  base_of (from_name f) m version = (f m, 0)
  base_of (from_version max_parts) m version = (upstream_version version, max_parts)

  -- One round of the loop over the rules: `rest` is what the later rounds return.
  abbrev pub by_base : Rule → Bytes × ℕ → Option Match → Option Match
  by_base r (base, parts) rest =
      if is_empty base then rest else elim (cycle_candidates base parts) [
        | [] ↦ rest
        | c ∷ cs ↦ some (record { product = r.product; cycles = c ∷ cs })
      ]

  unfoldable pub map_by : List Rule → Bytes → Bytes → Bytes → Option Match
  unfolding is_of_manager is_empty cycle_candidates
  map_by [] key name version = none
  map_by (r ∷ rs) key name version =
      let rest = map_by rs key name version in
      if not (is_of_manager key r) then rest else elim (find r.name name) [
        | none ↦ rest
        | some m ↦ by_base r (base_of r.cycle_from m version) rest
      ]

  -- Map
  unfoldable pub map_package : Bytes → Bytes → Bytes → Option Match
  unfolding map_by manager_key
  map_package manager name version = map_by rules (manager_key manager) name version
