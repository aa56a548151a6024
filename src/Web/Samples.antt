-- ===== src/Web/Samples.antt =====
-- The list of samples of webui/app.py.
use mysql_redshift_agent.Prelude.{List, [], ◌∷◌, String, map}
use mysql_redshift_agent.Text.{Text, codes, join}

pub record Sample : Type 0 where
  pub title : Text
  pub sql : Text
  pub note : Text

pub record SampleGroup : Type 0 where
  pub group : Text
  pub items : List Sample

-- A text of several lines.
abbrev text : List String → Text
text lines = join (10 ∷ []) (map codes lines)

abbrev large_table : SampleGroup
large_table = record {
  group = codes "50M 订单大表 · MySQL慢 vs Redshift快（iap_orders_5000w）";
  items =
      (record {
        title = codes "全表 COUNT(*)";
        sql = codes "SELECT COUNT(*) AS total FROM iap_orders_5000w;";
        note = codes "MySQL 行存需要扫 5000w 行；Redshift 列存 zone-map 瞬秒";
      })
      ∷ (record {
        title = codes "按支付渠道分组金额汇总";
        sql = text (
            "SELECT payment_processor, COUNT(*) AS cnt, SUM(amount) AS total_amount"
            ∷ "FROM iap_orders_5000w" ∷ "GROUP BY payment_processor" ∷ "ORDER BY total_amount DESC;"
            ∷ []);
        note = codes "分组聚合：MySQL 需全表扫+hash agg，Redshift 按 payment_processor 列并行扫";
      })
      ∷ (record {
        title = codes "大R TOP100 消费用户";
        sql = text (
            "SELECT uid, SUM(amount) AS revenue, COUNT(*) AS orders" ∷ "FROM iap_orders_5000w"
            ∷ "GROUP BY uid" ∷ "ORDER BY revenue DESC" ∷ "LIMIT 100;" ∷ []);
        note = codes "≈228w uid 去重聚合+排序，MySQL 预计 20–40s，Redshift 2–4s";
      })
      ∷ (record {
        title = codes "单月收入按平台/国家聚合";
        sql = text (
            "SELECT device_platform, country_code,"
            ∷ "       COUNT(*) AS orders, SUM(amount) AS revenue" ∷ "FROM iap_orders_5000w"
            ∷ "WHERE event_time >= '2023-06-01' AND event_time < '2023-07-01'"
            ∷ "GROUP BY device_platform, country_code" ∷ "ORDER BY revenue DESC;" ∷ []);
        note = codes "时间切片+两列 group by，MySQL 全表过滤，Redshift SORTKEY(event_time) 命中";
      })
      ∷ (record {
        title = codes "反向：未命中白名单 → 自动走 MySQL";
        sql = codes "SELECT COUNT(*) FROM ads_thor_fin_payment_iap_data_new;";
        note = codes "选 Proxy 跑：这张表也在白名单，会走 Redshift。把表名改成任意其他表，Proxy 会直连 MySQL";
      })
      ∷ [];
}

abbrev small_table : SampleGroup
small_table = record {
  group = codes "订单大表（100 行 demo 表：ads_thor_fin_payment_iap_data_new）";
  items =
      (record {
        title = codes "订单流水总行数";
        sql = codes "SELECT COUNT(*) AS total FROM ads_thor_fin_payment_iap_data_new;";
        note = codes "最基础的聚合——切换数据源对比延迟";
      })
      ∷ (record {
        title = codes "按支付渠道分组金额";
        sql = text (
            "SELECT payment_processor, COUNT(*) AS cnt, SUM(amount) AS total_amount"
            ∷ "FROM ads_thor_fin_payment_iap_data_new" ∷ "GROUP BY payment_processor"
            ∷ "ORDER BY total_amount DESC;" ∷ []);
        note = codes "分组聚合——Redshift 列存 vs MySQL 行存";
      })
      ∷ (record {
        title = codes "月度 Top 用户（综合复杂查询）";
        sql = text (
            "SELECT uid, app_id, SUM(amount) AS revenue, COUNT(*) AS orders"
            ∷ "FROM ads_thor_fin_payment_iap_data_new"
            ∷ "WHERE event_time >= '2023-09-01' AND event_time < '2023-11-01'"
            ∷ "  AND payment_processor NOT IN ('centurygames_pay','centurygames_store','pc')"
            ∷ "GROUP BY uid, app_id" ∷ "ORDER BY revenue DESC LIMIT 10;" ∷ []);
        note = codes "WHERE+NOT IN+GROUP BY+ORDER BY+LIMIT 综合";
      })
      ∷ [];
}

abbrev dialect : SampleGroup
dialect = record {
  group = codes "方言翻译样例（走 Proxy）";
  items =
      (record {
        title = codes "反引号标识符";
        sql = codes "SELECT `uid`, `amount` FROM dw.ads_thor_fin_payment_iap_data_new LIMIT 3;";
        note = codes "MySQL 反引号 → Redshift 双引号";
      })
      ∷ (record {
        title = codes "LIMIT a, b 语法";
        sql =
            codes
              "SELECT uid, ts FROM dw.ads_thor_fin_payment_iap_data_new ORDER BY ts LIMIT 2, 3;";
        note = codes "MySQL `LIMIT 2, 3` → Redshift `LIMIT 3 OFFSET 2`";
      })
      ∷ (record {
        title = codes "IFNULL";
        sql = text (
            "SELECT uid, IFNULL(app_version, 'unknown') AS ver"
            ∷ "FROM dw.ads_thor_fin_payment_iap_data_new LIMIT 5;" ∷ []);
        note = codes "IFNULL → COALESCE";
      })
      ∷ (record {
        title = codes "GROUP_CONCAT";
        sql = text (
            "SELECT payment_processor, GROUP_CONCAT(DISTINCT app_id) AS apps"
            ∷ "FROM dw.ads_thor_fin_payment_iap_data_new" ∷ "GROUP BY payment_processor;" ∷ []);
        note = codes "GROUP_CONCAT → LISTAGG WITHIN GROUP";
      })
      ∷ [];
}

abbrev direct : SampleGroup
direct = record {
  group = codes "直连测试（走 MySQL / Redshift 对比）";
  items =
      (record {
        title = codes "MySQL 原始 COUNT(*)";
        sql = codes "SELECT COUNT(*) AS total FROM ads_thor_fin_payment_iap_data_new;";
        note = codes "直连 MySQL：行存，全表扫";
      })
      ∷ (record {
        title = codes "Redshift 原始 COUNT(*)";
        sql = codes "SELECT COUNT(*) AS total FROM public.ads_thor_fin_payment_iap_data_new;";
        note = codes "直连 Redshift：列存，zone map 优化";
      })
      ∷ (record {
        title = codes "同一聚合两边对跑";
        sql = text (
            "SELECT payment_processor, SUM(amount) AS total"
            ∷ "FROM ads_thor_fin_payment_iap_data_new"
            ∷ "GROUP BY payment_processor ORDER BY total DESC;" ∷ []);
        note = codes "切换 source 下拉框分别跑 MySQL / Redshift / Proxy 对比耗时";
      })
      ∷ [];
}

-- SAMPLES, which `api_samples` returns
abbrev pub samples : List SampleGroup
samples = large_table ∷ small_table ∷ dialect ∷ direct ∷ []

unfoldable pub api_samples : List SampleGroup
api_samples = samples
