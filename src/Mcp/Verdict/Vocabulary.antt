-- ===== src/Mcp/Verdict/Vocabulary.antt =====
-- src/mcp/verdict.rs: the words that a tool's name is judged by.
use litellm_relay.Common.{String, List, [], ◌∷◌, string_eq}

unfoldable pub read_words : List String
read_words =
    "get" ∷ "list" ∷ "read" ∷ "search" ∷ "find" ∷ "fetch" ∷ "describe" ∷ "show" ∷ "view" ∷ "lookup"
    ∷ "count" ∷ "status" ∷ "whoami" ∷ "ping" ∷ "help" ∷ "info" ∷ "inspect" ∷ "preview" ∷ "summarize"
    ∷ []

unfoldable pub write_words : List String
write_words =
    "create" ∷ "update" ∷ "delete" ∷ "remove" ∷ "write" ∷ "set" ∷ "put" ∷ "post" ∷ "patch" ∷ "send"
    ∷ "add" ∷ "insert" ∷ "edit" ∷ "modify" ∷ "move" ∷ "rename" ∷ "upload" ∷ "run" ∷ "execute"
    ∷ "exec" ∷ "deploy" ∷ "merge" ∷ "close" ∷ "open" ∷ "cancel" ∷ "approve" ∷ "reject" ∷ "comment"
    ∷ "reply" ∷ "publish" ∷ "push" ∷ "commit" ∷ "drop" ∷ "kill" ∷ "stop" ∷ "start" ∷ "restart"
    ∷ "trigger" ∷ "invite" ∷ "assign" ∷ "archive" ∷ "restore" ∷ "reset" ∷ "revoke" ∷ "grant"
    ∷ "share" ∷ "pay" ∷ "purchase" ∷ "order" ∷ "book" ∷ "schedule" ∷ "submit" ∷ "sync" ∷ "import"
    ∷ "install" ∷ "enable" ∷ "disable" ∷ "apply" ∷ "fork" ∷ "clone" ∷ "transfer" ∷ "purge" ∷ "clear"
    ∷ "lock" ∷ "unlock" ∷ "sign" ∷ "rotate" ∷ "and" ∷ "replace" ∷ "overwrite" ∷ "truncate"
    ∷ "destroy" ∷ "save" ∷ "store" ∷ "append" ∷ "toggle" ∷ "resolve" ∷ "link" ∷ "unlink" ∷ "attach"
    ∷ "detach" ∷ "launch" ∷ "invoke" ∷ "terminate" ∷ "notify" ∷ "wipe" ∷ []
