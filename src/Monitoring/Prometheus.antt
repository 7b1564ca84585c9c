-- ===== src/Monitoring/Prometheus.antt =====
-- The text that `update_prometheus_metrics` of server/proxy/server/monitoring_statistics.c writes.
use net_port.Base.{
  Bool, true, ◌&&◌, ◌⊎◌, inl, inr, leb, ℕ, ◌+◌, ◌*◌, ◌≤◌, ◌<◌, ◌≡◌, refl, List, [], ◌∷◌, ◌++◌, Str,
  codes, length, length-append, All, print_decimal, length-digits, arith,
}
use net_port.Monitoring.{SystemStats, PerformanceMetrics}

-- A value of `%u` or `%llu`, or a constant of `%.2f` as its text.
pub data Value : Type 0 where
  number : ℕ → Value
  fixed : Str → Value

unfoldable pub value_text : Value → Str
value_text (number n) = print_decimal n
value_text (fixed t) = t

-- One metric: its name, its help, its kind and its value.
pub record Metric : Type 0 where
  pub name : Str
  pub help : Str
  pub kind : Str
  pub value : Value

abbrev line_end : Str
line_end = 10 ∷ []

unfoldable pub concat_all : List Str → Str
concat_all [] = []
concat_all (t ∷ ts) = t ++ concat_all ts

-- The three lines of a metric.
unfoldable pub metric_text : Metric → Str
metric_text m = concat_all (
    codes "# HELP net_port_"
    ∷ m.name
    ∷ codes " "
    ∷ m.help
    ∷ line_end
    ∷ codes "# TYPE net_port_"
    ∷ m.name
    ∷ codes " "
    ∷ m.kind
    ∷ line_end
    ∷ codes "net_port_"
    ∷ m.name
    ∷ codes " "
    ∷ value_text m.value
    ∷ line_end
    ∷ [])

abbrev gauge : Str → Str → Value → Metric
gauge name help value = record { name = name; help = help; kind = codes "gauge"; value = value }

abbrev counter : Str → Str → Value → Metric
counter name help value = record { name = name; help = help; kind = codes "counter"; value = value }

-- The metrics in their order. The two rates of the system are constants of the code.
unfoldable pub all_metrics : SystemStats → PerformanceMetrics → List Metric
all_metrics s m =
    gauge (codes "total_devices") (codes "Total number of registered devices")
      (number s.total_devices)
    ∷ gauge (codes "active_devices") (codes "Number of active devices") (number s.active_devices)
    ∷ gauge (codes "online_devices") (codes "Number of online devices (heartbeat < 5min)")
        (number s.online_devices)
    ∷ counter (codes "bytes_sent_total") (codes "Total bytes sent") (number s.total_bytes_sent)
    ∷ counter (codes "bytes_received_total") (codes "Total bytes received")
        (number s.total_bytes_received)
    ∷ counter (codes "connections_total") (codes "Total connections") (number s.total_connections)
    ∷ gauge (codes "peak_connections") (codes "Peak concurrent connections")
        (number s.peak_connections)
    ∷ gauge (codes "ports_used") (codes "Number of ports in use") (number s.ports_used)
    ∷ gauge (codes "ports_available") (codes "Number of ports available") (number s.ports_available)
    ∷ gauge (codes "system_cpu_usage") (codes "System CPU usage percentage") (fixed (codes "25.50"))
    ∷ gauge (codes "system_memory_usage") (codes "System memory usage percentage")
        (fixed (codes "65.20"))
    ∷ counter (codes "requests_total") (codes "Total requests") (number m.request_count)
    ∷ counter (codes "errors_total") (codes "Total errors") (number m.error_count)
    ∷ counter (codes "auth_failures_total") (codes "Authentication failures")
        (number m.auth_failures)
    ∷ counter (codes "timeouts_total") (codes "Request timeouts") (number m.timeout_count)
    ∷ gauge (codes "response_time_average") (codes "Average response time in milliseconds")
        (number m.avg_response_time_ms)
    ∷ gauge (codes "response_time_p95") (codes "95th percentile response time in milliseconds")
        (number m.p95_response_time_ms)
    ∷ gauge (codes "response_time_p99") (codes "99th percentile response time in milliseconds")
        (number m.p99_response_time_ms)
    ∷ gauge (codes "response_time_max") (codes "Maximum response time in milliseconds")
        (number m.max_response_time_ms)
    ∷ []

-- An empty line stands between two metrics.
unfoldable pub join_metrics : List Metric → Str
join_metrics [] = []
join_metrics (x ∷ []) = metric_text x
join_metrics (x ∷ y ∷ xs) = metric_text x ++ line_end ++ join_metrics (y ∷ xs)

-- `buffer` at the end of `update_prometheus_metrics`.
unfoldable pub prometheus_text : SystemStats → PerformanceMetrics → Str
prometheus_text s m = join_metrics (all_metrics s m)

-- The labels of a metric, and a constant value, are short.
unfoldable is_short : Metric → Bool
is_short x =
    leb (length x.name) 40
    && leb (length x.help) 60
    && leb (length x.kind) 10
    && elim x.value [ number n ↦ true | fixed t ↦ leb (length t) 20 ]

abbrev Short : Metric → Type 0
Short x = is_short x ≡ true

unfoldable all_short : List Metric → Bool
all_short [] = true
all_short (x ∷ xs) = is_short x && all_short xs

All-Short : (xs : List Metric) → all_short xs ≡ true → All Short xs
unfolding all_short
All-Short [] e = tt
All-Short (x ∷ xs) e = (ground (arith, e), All-Short xs (ground (arith, e)))

Value-cases : (v : Value) → ((n : ℕ) × (v ≡ number n)) ⊎ ((t : Str) × (v ≡ fixed t))
Value-cases (number n) = inl (n, refl)
Value-cases (fixed t) = inr (t, refl)

length-value_text : (x : Metric) → Short x → length (value_text x.value) ≤ 20
unfolding value_text is_short
length-value_text x short = elim (Value-cases x.value) [
  | inl (n, counted) ↦ rw (counted, value_text) (length-digits 19 n)
  | inr (t, constant) ↦ rw (constant, value_text) (ground (arith, short, constant))
]

abbrev sum_lengths : List Str → ℕ
sum_lengths [] = 0
sum_lengths (t ∷ ts) = length t + sum_lengths ts

length-concat_all : (ts : List Str) → length (concat_all ts) ≡ sum_lengths ts
unfolding concat_all
length-concat_all [] = refl
length-concat_all (t ∷ ts) = omega (arith, length-append t (concat_all ts), length-concat_all ts)

length-metric_text : (x : Metric) → Short x → length (metric_text x) ≤ 300
unfolding metric_text is_short
length-metric_text x short =
    let name : length x.name ≤ 40 = ground (arith, short) in
    let help : length x.help ≤ 60 = ground (arith, short) in
    let kind : length x.kind ≤ 10 = ground (arith, short) in
    omega (arith, length-concat_all _, name, help, kind, length-value_text x short)

length-join_metrics : (xs : List Metric) → All Short xs → length (join_metrics xs) ≤ length xs * 301
unfolding join_metrics
length-join_metrics [] h = omega arith
length-join_metrics (x ∷ []) h = omega (arith, length-metric_text x h.0)
length-join_metrics (x ∷ y ∷ xs) h = omega (
  arith,
  length-metric_text x h.0,
  length-join_metrics (y ∷ xs) h.1,
  length-append (metric_text x ++ line_end) (join_metrics (y ∷ xs)),
  length-append (metric_text x) line_end,
)

all_metrics-Short : (s : SystemStats) (m : PerformanceMetrics) → All Short (all_metrics s m)
unfolding all_metrics all_short is_short
all_metrics-Short s m = All-Short (all_metrics s m) refl

-- Whatever the numbers are, the text for Prometheus fits `buffer` and `g_prometheus_metrics`, which have
-- 65536 bytes, with its NUL: no `snprintf` is cut, and its offset never passes the end.
pub prometheus_text_fits :
    (s : SystemStats) (m : PerformanceMetrics) → length (prometheus_text s m) < 65536
unfolding prometheus_text all_metrics
prometheus_text_fits s m =
    omega (arith, length-join_metrics (all_metrics s m) (all_metrics-Short s m))
