-- ===== src/Handover/Election.antt =====
-- What both elections of a primary change are given besides the observed state: ForFlavor of pkg/engine/engine.go,
-- archiveCovered of internal/controller/async/cluster_failover.go and disownedSet of cluster_observation.go.
use cnmsql.Base.{
  ◌||◌, if◌then◌else◌, [], Option, none, some, Text, codes, text_eq, text_Eq, is_empty,
}
use cnmsql.Engine.{GtidModel}
use cnmsql.Engine.Mysql.{mysql_gtid}
use cnmsql.Engine.Mariadb.{mariadb_gtid}
use cnmsql.Gtid.Parse.{parse_gtid_set}
use cnmsql.Gtid.Set
use cnmsql.Gtid.Set.{GtidSet}
use cnmsql.Handover.{Spec, Status}
use cnmsql.Handover.Guards.{is_archiving_enabled}

-- ForFlavor(flavor).GTID(): the flavor defaults to mysql.
abbrev pub gtid_model : Text → Option GtidModel
gtid_model flavor =
    if is_empty flavor || text_eq flavor (codes "mysql")
    then some mysql_gtid
    else if text_eq flavor (codes "mariadb")
    then some mariadb_gtid
    else none

abbrev pub unless_empty : Option GtidSet → Option GtidSet
unless_empty none = none
unless_empty (some set) = if Set.has_no_transactions set then none else some set

unfoldable pub disowned_set : Text → Text → Option GtidSet
disowned_set flavor raw =
    if is_empty raw || text_eq flavor (codes "mariadb")
    then none
    else unless_empty (parse_gtid_set raw)

abbrev pub or_empty : Option Text → Text
or_empty none = []
or_empty (some set) = set

abbrev pub archive_covered : Spec → Status → Text
archive_covered spec status =
    if is_archiving_enabled spec then or_empty status.covered_gtid_set else []
