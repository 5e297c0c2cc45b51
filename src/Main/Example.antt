-- ===== src/Main/Example.antt =====
-- src/main.rs: generate_example, with the texts of configs/examples that it includes.
use nusa_launchd.Shared.{String, Option, none, some, [], ◌∷◌}
use nusa_launchd.Text.{concat}
use nusa_launchd.Util.{system, Result, ok, err}
use nusa_launchd.Cli.{ExampleType, simple, web_server, database, cron, socket}
use nusa_launchd.Main.Program.{Run, print_line, wrote, fail, ◌>>◌}
use nusa_launchd.Main.Directory.{Host}

abbrev pub simple_toml : String
simple_toml = concat (
    "# Simple echo service example\n" ∷ "# Save as /etc/nusalaunchd/jobs/simple-echo.toml\n" ∷ "\n"
    ∷ "label = \"simple-echo\"\n" ∷ "description = \"A simple echo service for testing\"\n" ∷ "\n"
    ∷ "[program]\n" ∷ "path = \"/usr/bin/echo\"\n" ∷ "arguments = [\"Hello from NusaLaunchd!\"]\n"
    ∷ "\n" ∷ "[supervision]\n" ∷ "keep_alive = false\n" ∷ "restart_policy = \"never\"" ∷ [])

abbrev pub web_server_toml : String
web_server_toml = concat (
    "# Example: Nginx web server configuration\n" ∷ "# Save as /etc/nusalaunchd/jobs/nginx.toml\n"
    ∷ "\n" ∷ "label = \"nginx\"\n" ∷ "description = \"Nginx HTTP/HTTPS web server\"\n" ∷ "\n"
    ∷ "[program]\n" ∷ "path = \"/usr/sbin/nginx\"\n" ∷ "arguments = [\"-g\", \"daemon off;\"]\n"
    ∷ "working_directory = \"/var/www/html\"\n" ∷ "\n" ∷ "[supervision]\n" ∷ "keep_alive = true\n"
    ∷ "restart_policy = \"on-failure\"\n" ∷ "restart_delay_sec = 3\n" ∷ "max_restarts = 5\n" ∷ "\n"
    ∷ "[[environment]]\n" ∷ "key = \"NGINX_ENV\"\n" ∷ "value = \"production\"\n" ∷ "\n"
    ∷ "[[environment]]\n" ∷ "key = \"NGINX_ENTRYPOINT\"\n" ∷ "value = \"/docker-entrypoint.sh\""
    ∷ [])

unfoldable pub example_text : ExampleType → String
example_text simple = simple_toml
example_text web_server = web_server_toml
example_text database = concat (
    "# Database service example\nlabel = \"database\"\n"
    ∷ "\n[program]\npath = \"/usr/bin/postgres\"\n" ∷ [])
example_text cron = concat (
    "# Cron-like service example\nlabel = \"cron-job\"\n"
    ∷ "\n[program]\npath = \"/usr/bin/bash\"\n"
    ∷ "arguments = [\"-c\", \"echo 'Hello from cron'\"]\n" ∷ [])
example_text socket = concat (
    "# Socket-activated service example\nlabel = \"socket-service\"\n"
    ∷ "\n[program]\npath = \"/usr/bin/echo\"\n" ∷ "# Socket configuration will be added in Week 3\n"
    ∷ [])

-- The answer of std::fs::write.
write_answer : String → String → Result String Unit → Run Unit
write_answer path text (err e) = fail (system (concat ("Failed to write file: " ∷ e ∷ [])))
write_answer path text (ok u) =
    wrote path text >> print_line (concat ("Example written to: " ∷ path ∷ []))

unfoldable pub generate_example : Host → ExampleType → Option String → Run Unit
unfolding example_text write_answer
generate_example host t none = print_line (example_text t)
generate_example host t (some path) =
    write_answer path (example_text t) (host.write path (example_text t))
