-- ===== src/Storage/Sql/Filters.antt =====
-- The filters of the trace and session queries of internal/storage/chdb_query.go, read again.
use labubu.Base.{◌≡◌, refl, true, not, List, [], ◌∷◌, ltb, all}
use labubu.Base.Str.{codes, is_empty}
use labubu.Base.Dict.{nat_eq, bytes_eq}
use labubu.Base.Floats.{Floats}
use labubu.Storage.Traces.{TraceQuery}
use labubu.Storage.Sessions.{SessionQuery}
use labubu.Storage.Sql.{
  NumberTexts, escape_sql, replace_byte, trace_clauses, build_trace_where_clause, session_clauses,
  build_session_list_where_clause,
}
use labubu.Storage.Sql.Reading.{Piece, marks_all, in_code, read_sql}
use labubu.Storage.Sql.Clauses.{
  eq_pieces, like_pieces, number_pieces, service_pieces, piece_if, where_pieces, RendersAll, eq_lem,
  like_lem, number_lem, service_lem, clause_lem, read_where,
}

module _ (fl : Floats) (texts : NumberTexts fl.Float) where
  open fl use {Float, zero_float, less}
  open texts use {format_uint, format_float, format_uint-All, format_float-All}

  -- The clauses of a trace query, each as code and the values that stand in it.
  abbrev pub trace_pieces : TraceQuery Float → List (List Piece)
  trace_pieces q = piece_if (not (is_empty q.service)) (service_pieces q.service) (
      piece_if (not (is_empty q.status)) (eq_pieces (codes "status_code = ") q.status) (
        piece_if (not (is_empty q.query)) (like_pieces (codes "root_name LIKE ") q.query) (
          piece_if (ltb 0 q.start_time_ms)
            (number_pieces (codes "start_time_ms >= ") (format_uint q.start_time_ms))
            (piece_if (ltb 0 q.end_time_ms)
              (number_pieces (codes "start_time_ms <= ") (format_uint q.end_time_ms))
              (piece_if (ltb 0 q.min_duration)
                (number_pieces (codes "duration_ms >= ") (format_uint q.min_duration))
                (piece_if (ltb 0 q.max_duration)
                  (number_pieces (codes "duration_ms <= ") (format_uint q.max_duration))
                  (piece_if (ltb 0 q.min_span_count)
                    (number_pieces (codes "span_count >= ") (format_uint q.min_span_count))
                    (piece_if (ltb 0 q.max_span_count)
                      (number_pieces (codes "span_count <= ") (format_uint q.max_span_count))
                      (piece_if (less zero_float q.min_cost)
                        (number_pieces (codes "cost >= ") (format_float q.min_cost))
                        (piece_if (less zero_float q.max_cost)
                          (number_pieces (codes "cost <= ") (format_float q.max_cost)) []))))))))))

  trace_clauses-RendersAll :
      (q : TraceQuery Float) → RendersAll (trace_clauses fl texts q) (trace_pieces q)
  unfolding trace_clauses all
  trace_clauses-RendersAll q = clause_lem _ _ _ _ _ (service_lem q.service) (
      clause_lem _ _ _ _ _ (eq_lem (codes "status_code = ") q.status refl) (
        clause_lem _ _ _ _ _ (like_lem (codes "root_name LIKE ") q.query refl) (
          clause_lem _ _ _ _ _
            (number_lem (codes "start_time_ms >= ") (format_uint q.start_time_ms) refl
              (format_uint-All q.start_time_ms))
            (clause_lem _ _ _ _ _
              (number_lem (codes "start_time_ms <= ") (format_uint q.end_time_ms) refl
                (format_uint-All q.end_time_ms))
              (clause_lem _ _ _ _ _
                (number_lem (codes "duration_ms >= ") (format_uint q.min_duration) refl
                  (format_uint-All q.min_duration))
                (clause_lem _ _ _ _ _
                  (number_lem (codes "duration_ms <= ") (format_uint q.max_duration) refl
                    (format_uint-All q.max_duration))
                  (clause_lem _ _ _ _ _
                    (number_lem (codes "span_count >= ") (format_uint q.min_span_count) refl
                      (format_uint-All q.min_span_count))
                    (clause_lem _ _ _ _ _
                      (number_lem (codes "span_count <= ") (format_uint q.max_span_count) refl
                        (format_uint-All q.max_span_count))
                      (clause_lem _ _ _ _ _
                        (number_lem (codes "cost >= ") (format_float q.min_cost) refl
                          (format_float-All q.min_cost))
                        (clause_lem _ _ _ _ _
                          (number_lem (codes "cost <= ") (format_float q.max_cost) refl
                            (format_float-All q.max_cost))
                          (refl, tt)))))))))))

  -- Read as a database reads it, the filter of a trace query is the fixed code of the fields that are
  -- set, and the value of each literal is the query's text, byte for byte, with the percent signs of a
  -- LIKE around it: no text of a query becomes code.
  pub read_sql-build_trace_where_clause :
      (q : TraceQuery Float)
      → read_sql in_code (build_trace_where_clause fl texts q)
        ≡ marks_all (where_pieces (trace_pieces q))
  unfolding build_trace_where_clause
  read_sql-build_trace_where_clause q =
      read_where (trace_clauses fl texts q) (trace_pieces q) (trace_clauses-RendersAll q)

module _ {F : Type 0} (texts : NumberTexts F) where
  open texts use {format_uint, format_uint-All}

  abbrev session_pieces : SessionQuery → List (List Piece)
  session_pieces q =
      eq_pieces (codes "session_id != ") []
      ∷ piece_if (not (is_empty q.service)) (service_pieces q.service) (
          piece_if (not (is_empty q.query)) (like_pieces (codes "session_id LIKE ") q.query) (
            piece_if (ltb 0 q.start_time_ms)
              (number_pieces (codes "start_time_ms >= ") (format_uint q.start_time_ms))
              (piece_if (ltb 0 q.end_time_ms)
                (number_pieces (codes "start_time_ms <= ") (format_uint q.end_time_ms)) [])))

  session_clauses-RendersAll :
      (q : SessionQuery) → RendersAll (session_clauses format_uint q) (session_pieces q)
  unfolding session_clauses all escape_sql replace_byte
  session_clauses-RendersAll q = clause_lem true _ _ _ _ (eq_lem (codes "session_id != ") [] refl) (
      clause_lem _ _ _ _ _ (service_lem q.service) (
        clause_lem _ _ _ _ _ (like_lem (codes "session_id LIKE ") q.query refl) (
          clause_lem _ _ _ _ _
            (number_lem (codes "start_time_ms >= ") (format_uint q.start_time_ms) refl
              (format_uint-All q.start_time_ms))
            (clause_lem _ _ _ _ _
              (number_lem (codes "start_time_ms <= ") (format_uint q.end_time_ms) refl
                (format_uint-All q.end_time_ms))
              (refl, tt)))))

  -- The same of the filter of a session query.
  read_sql-build_session_list_where_clause :
      (q : SessionQuery)
      → read_sql in_code (build_session_list_where_clause format_uint q)
        ≡ marks_all (where_pieces (session_pieces q))
  unfolding build_session_list_where_clause session_clauses
  read_sql-build_session_list_where_clause q =
      read_where (session_clauses format_uint q) (session_pieces q) (session_clauses-RendersAll q)
