-- ===== src/Roster/Texts.antt =====
-- The longer texts of the SQL in listByGuild and in store/query_plans.go; line breaks are spaces.
use apekeeper.Common.{String}

abbrev pub rating_text : String
rating_text =
    "EXISTS (SELECT 1 FROM mythic_plus m WHERE m.character_id=c.id AND m.overall_rating >= "

abbrev pub season_text : String
season_text = "EXISTS (SELECT 1 FROM mythic_plus m WHERE m.character_id=c.id AND m.season_slug="

abbrev pub and_rating_text : String
and_rating_text = " AND m.overall_rating >= "

abbrev pub raids_text : String
raids_text = "EXISTS (SELECT 1 FROM raid_progression r WHERE "

abbrev pub age_text : String
age_text = "(c.synced_at IS NOT NULL AND c.synced_at >= now() - ("

abbrev pub status_text : String
status_text =
    "EXISTS (SELECT 1 FROM officer_character_state os WHERE os.character_id=c.id AND os.lifecycle_status="

abbrev pub tag_text : String
tag_text = "EXISTS (SELECT 1 FROM officer_character_state os WHERE os.character_id=c.id AND "

abbrev pub count_text : String
count_text = "SELECT COUNT(*) FROM characters c LEFT JOIN users u ON u.id=c.user_id WHERE "

abbrev pub select_text : String
select_text =
    "SELECT c.id,c.guild_id,c.name,c.display_name,c.normalized_name,c.realm,c.realm_slug,c.region, COALESCE(c.class_id,0),COALESCE(c.class_name,''),COALESCE(c.spec_id,0),COALESCE(c.spec_name,''), COALESCE(c.level,0),COALESCE(c.item_level,0),COALESCE(c.guild_rank,0),COALESCE(c.race_name,''),COALESCE(c.gender,''), COALESCE(u.app_role,'member'),COALESCE((SELECT MAX(overall_rating) FROM mythic_plus m WHERE m.character_id=c.id),0), COALESCE((SELECT MAX(best_key_level) FROM mythic_plus m WHERE m.character_id=c.id),0),COALESCE(c.synced_at,'epoch') FROM characters c LEFT JOIN users u ON u.id=c.user_id WHERE "
