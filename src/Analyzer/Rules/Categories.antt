-- ===== src/Analyzer/Rules/Categories.antt =====
-- internal/analyzer/rules.go: what a pattern of the logs says of the cause.
use wormsign.Common.{String, Bool, List, [], ◌∷◌, str_eq, any, if◌then◌else◌}
use wormsign.Common.Text.{texts}

abbrev pub one_of : List String → String → Bool
one_of names s = any (λ n. str_eq n s) names

abbrev pub network_patterns : List String
network_patterns =
    "connection-refused" ∷ "connection-reset" ∷ "timeout" ∷ "dns-failure" ∷ "tls-error"
    ∷ "db-connection" ∷ []

unfoldable pub log_pattern_category : String → String
log_pattern_category pattern =
    if one_of network_patterns pattern
    then "networking"
    else if one_of
        ("permission-denied" ∷ "auth-failure" ∷ "no-such-file" ∷ "command-not-found"
          ∷ "read-only-fs" ∷ [])
        pattern
    then "configuration"
    else if one_of ("disk-full" ∷ []) pattern
    then "resources"
    else if one_of ("oom" ∷ "java-oom" ∷ []) pattern
    then "resources"
    else "application"

unfoldable pub crash_loop_remediation : String → String → List String
crash_loop_remediation pattern container =
    texts ("Check container logs: kubectl logs <pod> -c " ∷ container ∷ " --previous" ∷ [])
    ∷ (if one_of network_patterns pattern
        then "Verify the target service/database is running and reachable"
          ∷ "Check network policies and service endpoints" ∷ []
        else if one_of ("permission-denied" ∷ "auth-failure" ∷ []) pattern
        then "Verify service account permissions and RBAC roles"
          ∷ "Check mounted secrets and credentials" ∷ []
        else if one_of ("no-such-file" ∷ "command-not-found" ∷ []) pattern
        then "Verify the container image contains the expected binaries and files"
          ∷ "Check volume mounts and configmap references" ∷ []
        else if one_of ("oom" ∷ "java-oom" ∷ []) pattern
        then "Increase the memory limit for the container"
          ∷ "Profile the application's memory usage" ∷ []
        else "Review the application error and fix the underlying issue"
          ∷ "Check environment variables and configuration" ∷ [])
