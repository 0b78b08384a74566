-- ===== src/Haproxy/Template.antt =====
-- haproxy/src/template.rs: the configuration that haproxy gets.
use mongo_ha.Base.{is_some, ℕ, Bool, true, false, List, [], ◌∷◌, ◌++◌, map}
use mongo_ha.Text.{Text, codes}
use mongo_ha.Text.Number.{decimal}
use mongo_ha.Haproxy.{MongoNode, EdgeConfig}

unfoldable pub concat : List Text → Text
concat [] = []
concat (s ∷ rest) = s ++ concat rest

unfoldable pub server_entry : ℕ → EdgeConfig → MongoNode → Text
unfolding concat
server_entry health_port c n = concat (
    codes "    server "
    ∷ n.name
    ∷ codes " "
    ∷ n.host
    ∷ codes ":"
    ∷ decimal n.mongo_port
    ∷ codes " check port "
    ∷ decimal health_port
    ∷ codes " resolvers railway inter "
    ∷ c.check_interval
    ∷ codes " fastinter "
    ∷ c.check_fastinter
    ∷ codes " downinter "
    ∷ c.check_downinter
    ∷ [])

-- `join("\n")`
unfoldable pub join_lines : List Text → Text
join_lines [] = []
join_lines (s ∷ []) = s
join_lines (s ∷ t ∷ rest) = s ++ b'\n' ∷ join_lines (t ∷ rest)

unfoldable pub server_entries : List MongoNode → ℕ → EdgeConfig → Text
unfolding server_entry join_lines
server_entries nodes health_port c = join_lines (map (server_entry health_port c) nodes)

abbrev pub userlist : Bool → Text
userlist true =
    codes
      "userlist stats_users\n    user \"${HAPROXY_STATS_USER}\" insecure-password \"${HAPROXY_STATS_PASSWORD}\"\n\n"
userlist false = []

abbrev pub remote_rule : Bool → Text
remote_rule true = codes "http-request auth unless { http_auth(stats_users) }"
remote_rule false = codes "http-request deny"

unfoldable pub generate_stats_listener : EdgeConfig → Text
unfolding concat
generate_stats_listener c = concat (
    userlist (is_some c.stats_auth)
    ∷ codes "# Stats page for monitoring\n"
    ∷ codes "listen stats\n"
    ∷ codes "    bind :::8404 v4v6\n"
    ∷ codes "    mode http\n"
    ∷ codes "    acl LOCALHOST src 127.0.0.1 ::1 ::ffff:127.0.0.1\n"
    ∷ codes "    http-request allow if LOCALHOST\n"
    ∷ codes "    "
    ∷ remote_rule (is_some c.stats_auth)
    ∷ codes "\n"
    ∷ codes "    stats enable\n"
    ∷ codes "    stats uri /stats\n"
    ∷ codes "    stats refresh 10s\n"
    ∷ codes "    # This proxy's own traffic is not worth logging: the in-container\n"
    ∷ codes "    # monitoring loop scrapes /stats every few seconds and each scrape opens\n"
    ∷ codes "    # two connections. Carried over from redis-ha, where inheriting `log\n"
    ∷ codes "    # global` here made self-traffic ~99% of the service's entire log volume,\n"
    ∷ codes "    # burying the lines an operator actually needs (backend UP/DOWN, DNS\n"
    ∷ codes "    # re-resolution, client connects).\n"
    ∷ codes "    no log\n"
    ∷ [])

unfoldable pub generate_config : EdgeConfig → List MongoNode → Text
unfolding concat server_entries generate_stats_listener
generate_config c nodes = concat (
    codes "global\n"
    ∷ codes "    maxconn "
    ∷ c.max_conn
    ∷ codes "\n"
    ∷ codes "    log stdout format raw local0\n"
    ∷ codes "\n"
    ∷ codes "defaults\n"
    ∷ codes "    log global\n"
    ∷ codes "    mode tcp\n"
    ∷ codes "    option tcpka\n"
    ∷ codes "    option clitcpka\n"
    ∷ codes "    option srvtcpka\n"
    ∷ codes "    option redispatch\n"
    ∷ codes "    retries 3\n"
    ∷ codes "    timeout connect "
    ∷ c.timeout_connect
    ∷ codes "\n"
    ∷ codes "    timeout client "
    ∷ c.timeout_client
    ∷ codes "\n"
    ∷ codes "    timeout server "
    ∷ c.timeout_server
    ∷ codes "\n"
    ∷ codes "    timeout check "
    ∷ c.timeout_check
    ∷ codes "\n"
    ∷ codes "\n"
    ∷ codes "resolvers railway\n"
    ∷ codes "    parse-resolv-conf\n"
    ∷ codes "    resolve_retries 3\n"
    ∷ codes "    timeout resolve 1s\n"
    ∷ codes "    timeout retry   1s\n"
    ∷ codes "    hold other      10s\n"
    ∷ codes "    hold refused    10s\n"
    ∷ codes "    hold nx         10s\n"
    ∷ codes "    hold timeout    10s\n"
    ∷ codes "    hold valid      10s\n"
    ∷ codes "    hold obsolete   10s\n"
    ∷ codes "\n"
    ∷ generate_stats_listener c
    ∷ codes "\n"
    ∷ codes "# Write traffic — routed exclusively to the current replica set PRIMARY.\n"
    ∷ codes "# The /role health check returns 200 only on the primary node.\n"
    ∷ codes "frontend mongo_writes\n"
    ∷ codes "    bind :::"
    ∷ decimal c.mongo_port
    ∷ codes " v4v6\n"
    ∷ codes "    default_backend mongo_primary_backend\n"
    ∷ codes "\n"
    ∷ codes "backend mongo_primary_backend\n"
    ∷ codes "    option httpchk\n"
    ∷ codes "    http-check send meth GET uri /role\n"
    ∷ codes "    http-check expect status 200\n"
    ∷ codes "    # fall 2 + fastinter 500ms: the first failed /role check switches the\n"
    ∷ codes "    # probe to the fast interval, so a real step-down is confirmed and the\n"
    ∷ codes "    # server pulled ~500ms after the first failure — but ONE slow or dropped\n"
    ∷ codes "    # check can no longer RST every client connection on a healthy primary.\n"
    ∷ codes "    # /role runs two admin commands (2s timeout each) against `timeout check\n"
    ∷ codes "    # 3s`, so a single blip under load is expected, and with no secondary\n"
    ∷ codes "    # passing /role a false mark-down is a self-inflicted write outage until\n"
    ∷ codes "    # `rise 2` readmits the primary. shutdown-sessions RSTs every open client\n"
    ∷ codes "    # connection the moment the server is genuinely marked down, forcing\n"
    ∷ codes "    # clients to reconnect and land on the new primary.\n"
    ∷ codes "    default-server fall 2 rise 2 on-marked-down shutdown-sessions\n"
    ∷ server_entries nodes c.health_port c
    ∷ codes "\n"
    ∷ [])
