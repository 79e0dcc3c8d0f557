-- ===== src/Router/Plugins.antt =====
-- src/plugins: the table access plugin and the intercept plugin; src/query_router.rs, `execute_plugins`.
-- What sqlparser prints of a statement, and the names of the relations that it visits, are given.
use pgcat.Prelude.{
  ℕ, Bool, true, false, Option, none, some, List, [], ◌∷◌, ◌++◌, codes, text_eq, if◌then◌else◌,
}
use pgcat.Prelude.Parse.{split}
use pgcat.Server.Parameters.{Text}
use pgcat.Router.Selection.{last_part}

pub data PluginOutput : Type 0 where
  allow overwrite : PluginOutput
  deny : Text → PluginOutput
  intercept : List ℕ → PluginOutput

-- src/config.rs
pub record TableAccess : Type 0 where
  pub enabled : Bool
  pub tables : List Text

unfoldable pub contains_text : List Text → Text → Bool
contains_text [] name = false
contains_text (t ∷ tables) name =
    let rest = contains_text tables name in if text_eq t name then true else rest

-- The visit stops at the first relation whose last part is listed.
unfoldable pub first_denied : List Text → List Text → Option Text
unfolding contains_text split
first_denied tables [] = none
first_denied tables (relation ∷ relations) =
    let rest = first_denied tables relations in
    let table_name = last_part (split b'.' relation) in
    if contains_text tables table_name then some table_name else rest

abbrev pub denial : Option Text → PluginOutput
denial none = allow
denial (some found) = deny (codes "permission for table \"" ++ (found ++ codes "\" denied"))

unfoldable pub table_access_run : TableAccess → List Text → PluginOutput
unfolding first_denied
table_access_run plugin relations =
    if plugin.enabled then denial (first_denied plugin.tables relations) else allow

-- `intercepted` is the result of the intercept plugin, if it is configured.
unfoldable pub execute_plugins : Option PluginOutput → Option TableAccess → List Text → PluginOutput
unfolding table_access_run
execute_plugins (some (intercept output)) access relations = intercept output
execute_plugins intercepted none relations = allow
execute_plugins intercepted (some access) relations = table_access_run access relations
